-- ===== src/Proxy/Scopes.antt =====
-- internal/proxy/policy.go: what each scope requires of a call before it may run.
pub mod Rows
pub mod Panes
pub mod Chosen
pub mod Guarded
use mathlib.Core.Option
use agterm_remote.Bindings.{Binding, grant_list}
use agterm_remote.Prelude.{
  Bool, List, Option, [], any, false, filter, if◌then◌else◌, is_nil, is_none, length, none, not,
  some, true, ℕ, ◌&&◌, ◌||◌, ◌∷◌,
}
use agterm_remote.Proxy.Authz.{
  Authz, Consent, Reason, Verdict, allow, ambiguous_pane, ask, bad_agent, bad_text, bound_elsewhere,
  bound_to_a_host, no_row, no_text, own_pane_gone, own_row_gone, own_row_only, reads_own_panes_only,
  stale_binding, text_twice, writes_own_panes_only,
}
use agterm_remote.Proxy.Call.{Call, Target}
use agterm_remote.Proxy.Rewrite.{named}
use agterm_remote.Proxy.Schema.{PaneBy, by_id, leaf_name}
use agterm_remote.Proxy.Targets.{
  check_owned, is_caller_row, map_row, owned_by, requested_pane, target_of, target_rows,
  whole_row_refusal,
}
use agterm_remote.Proxy.Tree.{
  Surface, TreeRow, agent_running, bound_at_pane, panes, row_at, surface_by_id,
}
use agterm_remote.Proxy.Typed.{preview, sanitize_typed}
use agterm_remote.Result.{Result, err, ok, ◌>>=◌}
use agterm_remote.Text.{Bytes, bytes_eq, codes, equal_fold}
use agterm_remote.Utf8.{runes}

abbrev raise : Option Reason → Result Reason Unit
raise none = ok tt
raise (some why) = err why

abbrev with_targets : Call → List Target → Call
with_targets c targets = record c { targets = targets }

abbrev from_found : {A : Type 0} → Reason → Option A → Result Reason A
from_found why none = err why
from_found why (some x) = ok x

-- Every row that the call names must be the caller's.
unfoldable pub own_rows : Authz → List Bytes → Result Reason Unit
own_rows a [] = ok tt
own_rows a (raw ∷ raws) = do
  row ← map_row a raw
  let rest = own_rows a raws
  if is_caller_row a row then rest else err own_row_only

unfoldable pub caller_scope : Authz → Result Reason Verdict
caller_scope a = do
  row ← from_found own_row_gone (row_at a.rows a.caller.row)
  _ ← own_rows a a.norm.raw_rows
  surface ← from_found own_pane_gone (surface_by_id row a.caller.pane_id)
  _ ← raise (check_owned a row surface)
  let target : Target = record { row = row.id; pane_id = []; side = []; whole_row = false }
  ok (allow (with_targets a.norm.call (target ∷ [])) none)

-- The target of a row-level call in one row.
unfoldable pub row_target : Authz → TreeRow → Result Reason Target
row_target a row = do
  _ ← raise (whole_row_refusal a row)
  let whole : Target = record { row = row.id; pane_id = []; side = []; whole_row = false }
  let named = do
    found ← requested_pane a row
    surface ← from_found no_row found
    ok (record whole { pane_id = surface.pane_id })
  if bytes_eq a.norm.raw_pane [] && bytes_eq a.norm.raw_side [] then ok whole else named

unfoldable pub row_targets : Authz → List TreeRow → Result Reason (List Target)
row_targets a [] = ok []
row_targets a (row ∷ rows) = do
  target ← row_target a row
  targets ← row_targets a rows
  ok (target ∷ targets)

abbrev row_pane_by : Authz → Option PaneBy
row_pane_by a =
    if bytes_eq a.norm.raw_pane [] && bytes_eq a.norm.raw_side [] then none else some by_id

unfoldable pub row_scope : Authz → Result Reason Verdict
row_scope a = do
  rows ← target_rows a
  targets ← row_targets a rows
  let call = a.norm.call
  ok (allow (record call { targets = targets; pane_by = row_pane_by a }) none)

-- A pane that a call with no pane option could mean.
unfoldable pub is_candidate : Authz → TreeRow → Surface → Bool
is_candidate a row s =
    not (is_none (owned_by a row s))
    || (is_none (bound_at_pane a.bound s.pane_id)
        && (a.leaf.typing && is_none (agent_running a.agents row s.kind)))

only_candidate : TreeRow → List Surface → Result Reason Surface
only_candidate row (s ∷ []) = ok s
only_candidate row ss = err (ambiguous_pane row.id (length ss))

unfoldable pub default_pane : Authz → TreeRow → List Surface → Result Reason Surface
unfolding only_candidate
default_pane a row (only ∷ []) = ok only
default_pane a row ss = only_candidate row (filter (is_candidate a row) ss)

unfoldable pub choose_pane : Authz → TreeRow → Result Reason Surface
choose_pane a row = do
  given ← requested_pane a row
  elim given [
    | some surface ↦ ok surface
    | none ↦
        if is_caller_row a row
        then from_found own_pane_gone (surface_by_id row a.caller.pane_id)
        else default_pane a row (panes row)
  ]

unfoldable pub type_text : Authz → Result Reason Bytes
type_text a =
    if a.norm.stdin_flag
    then if is_nil a.args.pos then ok a.stdin else err text_twice
    else elim a.args.pos [
      | [] ↦ err no_text
      | word ∷ more ↦ if is_nil more then ok word else err no_text
    ]

sanitized_text : Bytes → Result Reason Unit
sanitized_text text = elim (sanitize_typed text) [ ok _ ↦ ok tt | err e ↦ err (bad_text e) ]

unfoldable pub is_granted : Authz → TreeRow → Surface → Bool
is_granted a row surface =
    any (λ g. equal_fold g.row row.id && equal_fold g.pane_id surface.pane_id)
      (grant_list a.caller.grants)

-- The preview of the text as the user sees it.
abbrev preview_of : Bytes → List ℕ
preview_of text = elim (runes text) [ none ↦ [] | some rs ↦ preview rs ]

-- `session type` into a pane that the host does not own.
unfoldable pub type_local : Authz → Call → TreeRow → Surface → Result Reason Verdict
unfolding sanitized_text
type_local a call row surface = do
  _ ← raise (elim (bound_at_pane a.bound surface.pane_id) [
    | some b ↦ some (bound_to_a_host surface.pane_id)
    | none ↦ none
  ])
  _ ← raise (Option.map bad_agent (agent_running a.agents row surface.kind))
  text ← type_text a
  _ ← sanitized_text text
  let target : Consent = record {
    row = row.id;
    row_name = row.name;
    pane_id = surface.pane_id;
    text = text;
    preview = preview_of text;
  }
  ok (
      if is_granted a row surface
      then allow (record call { granted = true }) (some target)
      else ask call target)

-- A pane with no binding that is the host's: reading and writing are refused, typing asks.
unfoldable pub unowned : Authz → Call → TreeRow → Surface → Result Reason Verdict
unowned a call row surface =
    if not (is_none (bound_at_pane a.bound surface.pane_id))
    then err (stale_binding surface.pane_id)
    else if not a.leaf.typing
    then if a.leaf.write
      then err (writes_own_panes_only surface.pane_id)
      else err (reads_own_panes_only surface.pane_id)
    else type_local a call row surface

abbrev is_foreign : Authz → Option Binding → Bool
is_foreign a none = false
is_foreign a (some b) = not (bytes_eq b.host a.host)

-- The call with its pane.
unfoldable pub pane_call : Authz → TreeRow → Surface → Call
pane_call a row surface =
    let whole =
      bytes_eq (leaf_name a.leaf) (codes "session overlay open")
      && is_none (whole_row_refusal a row) in
    let target = target_of row surface in
    let call = a.norm.call in
    record call { targets = record target { whole_row = whole } ∷ []; pane_by = some a.leaf.by }

unfoldable pub decide_pane : Authz → TreeRow → Surface → Result Reason Verdict
decide_pane a row surface =
    let call = pane_call a row surface in
    if is_foreign a (bound_at_pane a.bound surface.pane_id)
    then err (bound_elsewhere surface.pane_id)
    else if not (is_none (owned_by a row surface))
    then (do _ ← raise (check_owned a row surface); ok (allow call none))
    else unowned a call row surface

-- `rows[0]`; the list is never empty.
abbrev first_row : List TreeRow → Result Reason TreeRow
first_row [] = err no_row
first_row (row ∷ rows) = ok row

unfoldable pub pane_scope : Authz → Result Reason Verdict
pane_scope a = do
  rows ← target_rows a
  row ← first_row rows
  surface ← choose_pane a row
  decide_pane a row surface
