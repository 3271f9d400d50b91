-- ===== src/Remote/Sessions.antt =====
-- internal/remote/sessions.go: the list of sessions that a host reports.
pub mod Split
mod Printed
mod Tests
use agterm_remote.Int.{atoi, negsuc, ℤ}
use agterm_remote.Prelude.{
  Bool, List, Option, [], if◌then◌else◌, is_nil, none, some, suc, ℕ, ◌&&◌, ◌==◌, ◌∷◌,
}
use agterm_remote.Result.{Result, err, ok, ◌>>=◌}
use agterm_remote.Text.{Bytes, bytes_eq, codes}
use agterm_remote.Token.{valid}

pub record Session : Type 0 where
  pub name : Bytes
  pub attached : ℤ
  pub idle_secs : ℤ
  pub cmds : Bytes
  pub state : Bytes

-- A line, by its number from one.
pub data SessionsError : Type 0 where
  bad_fields bad_attached bad_idle : ℕ → SessionsError

-- `strings.Split` at one byte: never an empty list.
abbrev pub put_first : ℕ → List Bytes → List Bytes
put_first c [] = (c ∷ []) ∷ []
put_first c (w ∷ ws) = (c ∷ w) ∷ ws

unfoldable pub split : ℕ → Bytes → List Bytes
split sep [] = [] ∷ []
split sep (c ∷ s) = let rest = split sep s in if c == sep then [] ∷ rest else put_first c rest

-- `strings.TrimSuffix(s, "\n")`
unfoldable pub trim_newline : Bytes → Bytes
trim_newline [] = []
trim_newline (c ∷ s) = let rest = trim_newline s in if is_nil s && c == b'\n' then [] else c ∷ rest

abbrev is_dash : Bytes → Bool
is_dash s = bytes_eq s (codes "-")

abbrev pub idle_of : Bytes → Option ℤ
idle_of s = if is_dash s then some (negsuc 0) else atoi s

abbrev pub state_of : Bytes → Bytes
state_of s = if is_dash s then [] else s

abbrev pub session_of :
    Bytes → Bytes → Bytes → ℤ → Option ℤ → ℕ → Result SessionsError (Option Session)
session_of name cmds state attached none n = err (bad_idle n)
session_of name cmds state attached (some idle) n = ok (
    some (record {
      name = name;
      attached = attached;
      idle_secs = idle;
      cmds = cmds;
      state = state_of state;
    }))

abbrev pub with_attached :
    Bytes → Bytes → Bytes → Bytes → Option ℤ → ℕ → Result SessionsError (Option Session)
with_attached name idle cmds state none n = err (bad_attached n)
with_attached name idle cmds state (some attached) n =
    session_of name cmds state attached (idle_of idle) n

-- One line; a session whose name is not valid is skipped.
unfoldable pub parse_fields : List Bytes → ℕ → Result SessionsError (Option Session)
parse_fields (name ∷ attached ∷ idle ∷ cmds ∷ state ∷ []) n =
    if valid name then with_attached name idle cmds state (atoi attached) n else ok none
parse_fields _ n = err (bad_fields n)

abbrev pub add_session : Option Session → List Session → List Session
add_session none l = l
add_session (some s) l = s ∷ l

unfoldable pub parse_lines : List Bytes → ℕ → Result SessionsError (List Session)
parse_lines [] n = ok []
parse_lines (l ∷ lines) n = do
  s ← parse_fields (split b'\t' l) n
  rest ← parse_lines lines (suc n)
  ok (add_session s rest)

unfoldable pub parse_sessions : Bytes → Result SessionsError (List Session)
parse_sessions body = if is_nil body then ok [] else parse_lines (split b'\n' (trim_newline body)) 1
