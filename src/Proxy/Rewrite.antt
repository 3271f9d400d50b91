-- ===== src/Proxy/Rewrite.antt =====
-- internal/proxy/rewrite.go: the size of a page, and the names and reservations of new rows.
pub mod Names
pub mod Released
use agterm_remote.Bindings.{Binding}
use agterm_remote.Int.{negsuc, pos, ℤ}
use agterm_remote.Prelude.{
  Bool, List, Option, [], any, false, filter, if◌then◌else◌, is_nil, none, not, some, suc, within,
  zero, ℕ, ◌&&◌, ◌++◌, ◌-◌, ◌||◌, ◌∷◌,
}
use agterm_remote.Proxy.Call.{Call, Opt, Target, plain_opt, valued}
use agterm_remote.Result.{Result, err, ok, ◌>>=◌}
use agterm_remote.Text.{Bytes, bytes_eq, codes, contains, cut, itoa}
use agterm_remote.Token.{valid}

-- The answers of the host and of the bindings store that a rewrite reads, and what of its
-- environment it uses. `page_size` is 0 where none is set.
pub record Env : Type 0 where
  pub agr : Bytes
  pub sessions : Option (List Bytes)
  pub bindings : Option (List Binding)
  pub page_size : ℤ

-- The fields of a request that a rewrite reads.
pub record Origin : Type 0 where
  pub host : Bytes
  pub session : Bytes
  pub cwd : Bytes
  pub files : List Bytes
  pub stdin : Bytes

pub record NewRow : Type 0 where
  pub host : Bytes
  pub name : Bytes

pub record Page : Type 0 where
  pub file : Bytes
  pub block : Bool
  pub row : Bytes
  pub side : Bytes

pub record Prepared : Type 0 where
  pub args : List Bytes
  pub stdin : Bytes
  pub warnings : List Bytes
  pub new_row : Option NewRow
  pub page : Option Page
  pub cancel : List Bytes

pub data RewriteError : Type 0 where
  cannot_list cannot_read_bindings no_free_name : RewriteError
  pane_not_bound : Bytes → RewriteError
  file_not_sent : ℕ → RewriteError

unfoldable pub max_generated_names : ℕ
max_generated_names = 1000

abbrev pub named : Bytes → Opt → Bool
named name opt = bytes_eq opt.name name

unfoldable pub has_opt : List Opt → Bytes → Bool
has_opt opts name = any (named name) opts

unfoldable pub without_opts : List Opt → List Bytes → List Opt
without_opts opts names = filter (λ opt. not (contains names opt.name)) opts

unfoldable pub overlay_close : Target → List Bytes
overlay_close target =
    let args =
      codes "session" ∷ codes "overlay" ∷ codes "close" ∷ valued (codes "target") target.row ∷ [] in
    if bytes_eq target.side [] then args else args ++ valued (codes "pane") target.side ∷ []

abbrev size_names : List Bytes
size_names = codes "size-percent" ∷ codes "width" ∷ codes "height" ∷ []

abbrev is_sized : Call → Bool
is_sized c = any (has_opt c.opts) size_names

abbrev size_warning : Bytes
size_warning =
    codes
      "size ignored: a pane overlay is always full, and this row has a pane the host does not own"

abbrev is_page : Call → Bool
is_page c = not (is_nil c.files) || has_opt c.opts (codes "url")

abbrev size_opt : Bytes → Opt
size_opt value = record {
  name = codes "size-percent";
  value = value;
  flag = false;
  role = plain_opt;
}

-- The user's size where it is from 1 to 99.
abbrev user_size : ℤ → Option ℕ
user_size (pos n) = if within 1 99 n then some n else none
user_size (negsuc _) = none

abbrev whole_target : Call → Target → Call
whole_target c target = record c { targets = record target { side = [] } ∷ [] }

unfoldable pub size_whole : ℤ → Call → Target → Call
size_whole page_size c target =
    if is_sized c then whole_target c target else elim (user_size page_size) [
      | none ↦ c
      | some n ↦ whole_target (record c { opts = c.opts ++ size_opt (itoa n) ∷ [] }) target
    ]

unfoldable pub size_target : ℤ → Call → Target → Call × List Bytes
size_target page_size c target =
    if target.whole_row
    then (size_whole page_size c target, [])
    else if not (is_sized c) || bytes_eq target.side []
    then (c, [])
    else (record c { opts = without_opts c.opts size_names }, size_warning ∷ [])

abbrev size_targets : ℤ → Call → List Target → Call × List Bytes
size_targets page_size c (target ∷ []) = size_target page_size c target
size_targets page_size c _ = (c, [])

-- `sizePage`; the warning is a list of none or one.
unfoldable pub size_page : ℤ → Call → Call × List Bytes
size_page page_size c =
    if bytes_eq c.leaf (codes "session overlay open") && is_page c
    then size_targets page_size c c.targets
    else (c, [])

-- `reservationKey`
unfoldable pub reservation_key : Bytes → Bytes → Bytes
reservation_key host name = host ++ 0 ∷ name

-- The name in a key of this host.
unfoldable pub reserved_name : Bytes → Bytes → Option Bytes
reserved_name host key =
    let parts = cut 0 key in
    if parts.found && bytes_eq parts.before host then some parts.after else none

unfoldable pub reserved_for : Bytes → List Bytes → Bytes → Bool
reserved_for host reserved name =
    any (λ key. elim (reserved_name host key) [ none ↦ false | some taken ↦ bytes_eq taken name ])
      reserved

-- `taken[name]`
unfoldable pub is_taken : Bytes → List Bytes → List Binding → List Bytes → Bytes → Bool
is_taken host sessions bound reserved name =
    contains sessions name
    || any (λ b. bytes_eq b.host host && bytes_eq b.name name) bound
    || reserved_for host reserved name

abbrev candidate : Bytes → ℕ → Bytes
candidate base n = base ++ b'-' ∷ itoa n

-- The loop over the numbered names; the fuel is the number of them that are left.
unfoldable pub numbered : (Bytes → Bool) → Bytes → ℕ → ℕ → Option Bytes
numbered taken base n zero = none
numbered taken base n (suc fuel) =
    let rest = numbered taken base (suc n) fuel in
    if valid (candidate base n) && not (taken (candidate base n))
    then some (candidate base n)
    else rest

unfoldable pub free_name : (Bytes → Bool) → Bytes → Bytes → Result RewriteError Bytes
free_name taken session wanted =
    let base = if valid wanted then wanted else session in
    if valid wanted && not (taken wanted)
    then ok wanted
    else elim (numbered taken base 2 (max_generated_names - 2)) [
      | none ↦ err no_free_name
      | some name ↦ ok name
    ]

-- `pickName`
unfoldable pub pick_name : Env → Origin → List Bytes → Bytes → Result RewriteError Bytes
pick_name env req reserved wanted = elim env.sessions [
  | none ↦ err cannot_list
  | some sessions ↦ elim env.bindings [
    | none ↦ err cannot_read_bindings
    | some bound ↦ free_name (is_taken req.host sessions bound reserved) req.session wanted
  ]
]

-- `generateName`: the name, with its key in the reservations.
unfoldable pub generate_name :
    Env → Origin → List Bytes → Bytes → Result RewriteError (Bytes × List Bytes)
generate_name env req reserved wanted = do
  name ← pick_name env req reserved wanted
  ok (name, reservation_key req.host name ∷ reserved)

-- `releaser`
unfoldable pub release : Bytes → Bytes → List Bytes → List Bytes
release host name reserved = filter (λ key. not (bytes_eq key (reservation_key host name))) reserved
