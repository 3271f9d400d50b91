-- ===== src/Remote/Sessions/Printed.antt =====
-- internal/remote/sessions.go: the list as a host prints it.
use agterm_remote.Int.{atoi-itoa, max_int, negsuc, pos, ℤ}
use agterm_remote.Prelude.{
  All, All-map, List, Option, [], ap, arith, false, if◌then◌else◌, is_nil, ltb, map, none, refl,
  some, suc, true, within, ℕ, ◌++◌, ◌==◌, ◌∙◌, ◌∷◌, ◌≡◌, ◌≤◌,
}
use agterm_remote.Remote.Sessions.{
  Session, idle_of, parse_fields, parse_lines, parse_sessions, split, state_of, trim_newline,
}
use agterm_remote.Remote.Sessions.Split.{
  digits_lack, has_byte-append, name_lacks, not_nil, split-append, split_self, trim_newline-append,
  trim_newline_end,
}
use agterm_remote.Result.{ok}
use agterm_remote.Text.{Bytes, bytes_eq, codes, has_byte, itoa, itoa_digits}
use agterm_remote.Token.{valid}

-- A session as the remote command knows it; an unknown idle time prints as a dash, as does no state.
pub record Reported : Type 0 where
  pub name : Bytes
  pub attached : ℕ
  pub idle : Option ℕ
  pub cmds : Bytes
  pub state : Bytes

abbrev print_idle : Option ℕ → Bytes
print_idle none = codes "-"
print_idle (some n) = itoa n

abbrev print_state : Bytes → Bytes
print_state s = if is_nil s then codes "-" else s

abbrev pub print_line : Reported → Bytes
print_line r =
    r.name
    ++ b'\t'
      ∷ (itoa r.attached
          ++ b'\t' ∷ (print_idle r.idle ++ b'\t' ∷ (r.cmds ++ b'\t' ∷ print_state r.state)))

abbrev pub print_sessions : List Reported → Bytes
print_sessions [] = []
print_sessions (r ∷ rs) = print_line r ++ b'\n' ∷ print_sessions rs

abbrev idle_int : Option ℕ → ℤ
idle_int none = negsuc 0
idle_int (some n) = pos n

abbrev pub as_session : Reported → Session
as_session r = record {
  name = r.name;
  attached = pos r.attached;
  idle_secs = idle_int r.idle;
  cmds = r.cmds;
  state = r.state;
}

-- A text without a tab and a newline.
abbrev pub IsPlain : Bytes → Type 0
IsPlain s = (has_byte b'\t' s ≡ false) × (has_byte b'\n' s ≡ false)

abbrev IsSmall : Option ℕ → Type 0
IsSmall none = Unit
IsSmall (some n) = n ≤ max_int

-- The name is valid, the numbers fit, and the other texts cannot be taken for something else.
pub record IsReported (r : Reported) : Type 0 where
  pub valid_name : valid r.name ≡ true
  pub small : r.attached ≤ max_int
  pub small_idle : IsSmall r.idle
  pub plain_cmds : IsPlain r.cmds
  pub plain_state : IsPlain r.state
  pub no_dash : bytes_eq r.state (codes "-") ≡ false

lines_of :
    (r : Reported) (rs : List Reported)
    → All (λ x. has_byte b'\n' (print_line x) ≡ false) (r ∷ rs)
    → split b'\n' (trim_newline (print_sessions (r ∷ rs))) ≡ print_line r ∷ map print_line rs
lines_of r [] (h, _) =
    ap (split b'\n') (trim_newline_end (print_line r)) ∙ split_self b'\n' (print_line r) h
lines_of r (t ∷ rs) (h, k) =
    let rest = print_sessions (t ∷ rs) in
    ap (split b'\n') (
      trim_newline-append (print_line r) b'\n' rest
        (not_nil (print_line t) b'\n' (print_sessions rs)))
    ∙ split-append b'\n' (print_line r) (trim_newline rest) h
    ∙ ap (λ l. print_line r ∷ l) (lines_of t rs k)

idle_lacks : (b : ℕ) (o : Option ℕ) → ltb b b'-' ≡ true → has_byte b (print_idle o) ≡ false
idle_lacks b none l = ground (arith, l)
idle_lacks b (some n) l = digits_lack b (itoa n) (ground (arith, l)) (itoa_digits n)

state_lacks :
    (b : ℕ) (s : Bytes)
    → ltb b b'-' ≡ true
    → has_byte b s ≡ false
    → has_byte b (print_state s) ≡ false
state_lacks b [] l h = ground (arith, l)
state_lacks b (c ∷ s) l h = h

digits_not_dash :
    (s : Bytes) → All (λ c. within b'0' b'9' c ≡ true) s → bytes_eq s (codes "-") ≡ false
unfolding bytes_eq
digits_not_dash [] h = refl
digits_not_dash (c ∷ s) (d, h) = let other : c == b'-' ≡ false = ground (arith, d) in rw other refl

idle-read : (o : Option ℕ) → IsSmall o → idle_of (print_idle o) ≡ some (idle_int o)
unfolding bytes_eq
idle-read none h = refl
idle-read (some n) h = rw (digits_not_dash (itoa n) (itoa_digits n)) (atoi-itoa n h)

state-read : (s : Bytes) → bytes_eq s (codes "-") ≡ false → state_of (print_state s) ≡ s
unfolding bytes_eq
state-read [] h = refl
state-read (c ∷ s) h = rw h refl

module _ (r : Reported) (w : IsReported r) where
  fields_of :
      split b'\t' (print_line r)
      ≡ r.name ∷ itoa r.attached ∷ print_idle r.idle ∷ r.cmds ∷ print_state r.state ∷ []
  fields_of =
      split-append b'\t' r.name _ (name_lacks b'\t' r.name refl w.valid_name)
      ∙ ap (λ l. r.name ∷ l)
          (split-append b'\t' (itoa r.attached) _
              (digits_lack b'\t' (itoa r.attached) refl (itoa_digits r.attached))
            ∙ ap (λ l. itoa r.attached ∷ l)
                (split-append b'\t' (print_idle r.idle) _ (idle_lacks b'\t' r.idle refl)
                  ∙ ap (λ l. print_idle r.idle ∷ l)
                      (split-append b'\t' r.cmds _ w.plain_cmds.0
                        ∙ ap (λ l. r.cmds ∷ l)
                            (split_self b'\t' (print_state r.state)
                              (state_lacks b'\t' r.state refl w.plain_state.0)))))

  line_lacks : has_byte b'\n' (print_line r) ≡ false
  line_lacks = has_byte-append b'\n' r.name _ (name_lacks b'\n' r.name refl w.valid_name) (
      has_byte-append b'\n' (itoa r.attached) _
        (digits_lack b'\n' (itoa r.attached) refl (itoa_digits r.attached))
        (has_byte-append b'\n' (print_idle r.idle) _ (idle_lacks b'\n' r.idle refl) (
          has_byte-append b'\n' r.cmds _ w.plain_cmds.1
            (state_lacks b'\n' r.state refl w.plain_state.1))))

  fields-read : (n : ℕ) → parse_fields (split b'\t' (print_line r)) n ≡ ok (some (as_session r))
  unfolding parse_fields
  fields-read n =
      rw
        (
          fields_of,
          w.valid_name,
          atoi-itoa r.attached w.small,
          idle-read r.idle w.small_idle,
          state-read r.state w.no_dash,
        )
        refl

lines-read :
    (rs : List Reported) (n : ℕ)
    → All IsReported rs
    → parse_lines (map print_line rs) n ≡ ok (map as_session rs)
unfolding parse_lines
lines-read [] n h = refl
lines-read (r ∷ rs) n (w, h) = rw (fields-read r w n, lines-read rs (suc n) h) refl

-- The list of sessions that a host prints is read back as those sessions, an unknown idle time as -1,
-- where the names are valid, the numbers fit, and no other text holds a tab or a newline or is the
-- dash that stands for no state.
pub parse_sessions-print_sessions :
    (rs : List Reported)
    → All IsReported rs
    → parse_sessions (print_sessions rs) ≡ ok (map as_session rs)
unfolding parse_sessions
parse_sessions-print_sessions [] h = refl
parse_sessions-print_sessions (r ∷ rs) h =
    let lack = All-map (λ (x : Reported) w. line_lacks x w) (r ∷ rs) h in
    rw (not_nil (print_line r) b'\n' (print_sessions rs))
      (ap (λ l. parse_lines l 1) (lines_of r rs lack) ∙ lines-read (r ∷ rs) 1 h)
