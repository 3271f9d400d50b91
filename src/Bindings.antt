-- ===== src/Bindings.antt =====
-- internal/bindings/store.go: the bindings between panes and remote sessions, as lists in database
-- order. A grant list is `none` where the Go slice is nil.
pub mod Distinct
pub mod Upsert
pub mod Grants
pub mod Store
mod Tests
use agterm_remote.Prelude.{
  Bool, List, Option, [], any, filter, find, if◌then◌else◌, is_none, none, not, some, true, ℕ, ◌&&◌,
  ◌++◌, ◌||◌, ◌∷◌,
}
use agterm_remote.Text.{Bytes, bytes_eq}
use mathlib.Core.Option

pub record Grant : Type 0 where
  pub row : Bytes
  pub pane_id : Bytes
  pub kind : Bytes

-- `BoundAt` is an instant, counted from some epoch.
pub record Binding : Type 0 where
  pub row : Bytes
  pub pane_id : Bytes
  pub pane : Bytes
  pub host : Bytes
  pub name : Bytes
  pub mux : Bytes
  pub bound_at : ℕ
  pub grants : Option (List Grant)

-- `have == grant` on the struct
unfoldable pub grant_eq : Grant → Grant → Bool
grant_eq g h = bytes_eq g.row h.row && bytes_eq g.pane_id h.pane_id && bytes_eq g.kind h.kind

-- the test `binding.Host == host && binding.Name == name`
abbrev pub is_session : Bytes → Bytes → Binding → Bool
is_session host name b = bytes_eq b.host host && bytes_eq b.name name

unfoldable pub supersedes : Binding → Binding → Bool
supersedes next old =
    if bytes_eq old.host next.host && bytes_eq old.name next.name
    then true
    else if not (bytes_eq old.row next.row)
    then not (bytes_eq next.pane_id []) && bytes_eq old.pane_id next.pane_id
    else bytes_eq next.pane_id []
      || bytes_eq old.pane_id []
      || bytes_eq old.pane_id next.pane_id
      || bytes_eq old.pane next.pane

-- `next` once it has met a binding that it supersedes
unfoldable pub inherit : Binding → Binding → Binding
inherit next b =
    if is_session next.host next.name b && is_none next.grants
    then record next { grants = b.grants }
    else next

unfoldable pub upsert_loop : List Binding → Binding → List Binding → List Binding
unfolding inherit
upsert_loop filtered next [] = filtered ++ next ∷ []
upsert_loop filtered next (b ∷ bs) =
    let gone = supersedes next b in
    upsert_loop (if gone then filtered else filtered ++ b ∷ [])
      (if gone then inherit next b else next) bs

unfoldable pub upsert : List Binding → Binding → List Binding
unfolding upsert_loop supersedes
upsert current next = upsert_loop [] next current

-- the loop of `Save`
unfoldable pub save_all : List Binding → List Binding → List Binding
save_all current [] = current
save_all current (b ∷ next) = save_all (upsert current b) next

-- the closure of `AddGrant`
unfoldable pub with_grant : Grant → List Grant → List Grant
with_grant g gs = if any (λ have. grant_eq have g) gs then gs else gs ++ g ∷ []

-- the closure of `DropGrant`
unfoldable pub without_grant : Grant → List Grant → List Grant
without_grant g gs = filter (λ have. not (grant_eq have g)) gs

-- `append([]Grant(nil), grants...)`
abbrev pub grant_list : Option (List Grant) → List Grant
grant_list none = []
grant_list (some gs) = gs

unfoldable pub nil_if_empty : List Grant → Option (List Grant)
nil_if_empty [] = none
nil_if_empty (g ∷ gs) = some (g ∷ gs)

abbrev pub edit_one : (List Grant → List Grant) → Binding → Binding
unfolding nil_if_empty
edit_one edit b = record b { grants = nil_if_empty (edit (grant_list b.grants)) }

-- the loop of `editGrants`: the first binding of the session, or none
unfoldable pub edit_grants :
    Bytes → Bytes → (List Grant → List Grant) → List Binding → Option (List Binding)
unfolding nil_if_empty
edit_grants host name edit [] = none
edit_grants host name edit (b ∷ bs) =
    let later = edit_grants host name edit bs in
    if not (is_session host name b)
    then Option.map (λ rest. b ∷ rest) later
    else some (edit_one edit b ∷ bs)

-- the loop of `UnbindRow`
unfoldable pub unbind_row : Bytes → List Binding → List Binding
unbind_row row bs = filter (λ b. not (bytes_eq b.row row)) bs

-- the loops of `ByHostName`, `ForRow`, `ByRow` and `ForHost`
unfoldable pub by_host_name : Bytes → Bytes → List Binding → Option Binding
by_host_name host name bs = find (is_session host name) bs

unfoldable pub for_row : Bytes → List Binding → List Binding
for_row row bs = filter (λ b. bytes_eq b.row row) bs

unfoldable pub by_row : Bytes → List Binding → Option Binding
unfolding for_row
by_row row bs = elim (for_row row bs) [ [] ↦ none | b ∷ _ ↦ some b ]

unfoldable pub for_host : Bytes → List Binding → List Binding
for_host host bs = filter (λ b. bytes_eq b.host host) bs
