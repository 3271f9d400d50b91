-- ===== src/Proxy/Targets.antt =====
-- internal/proxy/policy.go: which rows and panes a call names, and whether they are the host's.
pub mod Owned
use agterm_remote.Bindings.{Binding}
use agterm_remote.Prelude.{
  Bool, List, Option, [], false, find, find_last, if◌then◌else◌, is_nil, none, not, some, true, ℕ,
  ◌&&◌, ◌++◌, ◌+◌, ◌==◌, ◌||◌, ◌∷◌,
}
use agterm_remote.Proxy.Authz.{
  Authz, Reason, bound_elsewhere, in_row, local_terminal, no_such_row, no_such_side, not_a_pane_id,
  not_a_row_id, not_attached, not_bound, pane_not_in_row, panes_differ, row_without_pane,
}
use agterm_remote.Proxy.Call.{Target}
use agterm_remote.Proxy.Tree.{
  Surface, TreeRow, attached, bound_at_pane, is_pane, is_uuid, panes, row_at, surface_by_id,
}
use agterm_remote.Result.{Result, err, ok, ◌>>=◌}
use agterm_remote.Text.{Bytes, bytes_eq, codes, contains, equal_fold, to_lower}

-- `mapRow`: the caller's row for an empty value or a self marker, else a full id of a live row.
unfoldable pub map_row : Authz → Bytes → Result Reason TreeRow
map_row a raw =
    let own = bytes_eq raw [] || (not (bytes_eq a.self_row []) && equal_fold raw a.self_row) in
    let id = if own then a.caller.row else raw in
    if not own && not (is_uuid raw)
    then err (not_a_row_id raw)
    else elim (row_at a.rows id) [ none ↦ err (no_such_row id) | some row ↦ ok row ]

unfoldable pub is_caller_row : Authz → TreeRow → Bool
is_caller_row a row = equal_fold row.id a.caller.row

-- The loop of `targetRows`: `seen` holds the keys of the rows taken.
unfoldable pub rows_loop :
    Authz → List Bytes → List TreeRow → List Bytes → Result Reason (List TreeRow)
rows_loop a seen rows [] = ok rows
rows_loop a seen rows (raw ∷ raws) = do
  row ← map_row a raw
  let old = contains seen (to_lower row.id)
  rows_loop a (if old then seen else to_lower row.id ∷ seen)
      (if old then rows else rows ++ row ∷ []) raws

unfoldable pub target_rows : Authz → Result Reason (List TreeRow)
target_rows a = rows_loop a [] [] (if is_nil a.norm.raw_rows then [] ∷ [] else a.norm.raw_rows)

-- `--pane-id`, if it was passed.
unfoldable pub pane_by_id : Authz → TreeRow → Result Reason (Option Surface)
pane_by_id a row =
    let raw = a.norm.raw_pane in
    let own = not (bytes_eq a.self_pane []) && equal_fold raw a.self_pane in
    let id = if own then a.caller.pane_id else raw in
    if bytes_eq raw []
    then ok none
    else if not own && not (is_uuid raw)
    then err (not_a_pane_id raw)
    else elim (surface_by_id row id) [
      | none ↦ err (pane_not_in_row id row.id)
      | some surface ↦ ok (some surface)
    ]

unfoldable pub side_kind : Bytes → Bytes
side_kind side =
    if bytes_eq side (codes "right") || bytes_eq side (codes "split")
    then codes "right"
    else codes "left"

same_pane : Option Surface → Surface → Bool
same_pane none found = true
same_pane (some surface) found = equal_fold found.pane_id surface.pane_id

-- `--pane`, if it was passed; it must agree with `--pane-id`.
unfoldable pub pane_by_side : Authz → TreeRow → Option Surface → Result Reason (Option Surface)
unfolding side_kind same_pane
pane_by_side a row given =
    let kind = side_kind a.norm.raw_side in
    if bytes_eq a.norm.raw_side []
    then ok given
    else elim (find_last (λ s. bytes_eq s.kind kind) (panes row)) [
      | none ↦ err (no_such_side row.id kind)
      | some found ↦ if same_pane given found then ok (some found) else err panes_differ
    ]

unfoldable pub requested_pane : Authz → TreeRow → Result Reason (Option Surface)
requested_pane a row = do given ← pane_by_id a row; pane_by_side a row given

unfoldable pub target_of : TreeRow → Surface → Target
target_of row surface =
    let split =
      row.has_split
      && (bytes_eq surface.kind (codes "left") || bytes_eq surface.kind (codes "right")) in
    record {
      row = row.id;
      pane_id = surface.pane_id;
      side = if split then surface.kind else [];
      whole_row = false;
    }

-- The binding of a pane, if it is the host's and of this row.
unfoldable pub owned_by : Authz → TreeRow → Surface → Option Binding
owned_by a row surface = elim (bound_at_pane a.bound surface.pane_id) [
  | none ↦ none
  | some b ↦ if bytes_eq b.host a.host && equal_fold b.row row.id then some b else none
]

unfoldable pub not_owned : Authz → Surface → Option Binding → Reason
not_owned a surface none = not_bound surface.pane_id
not_owned a surface (some other) =
    if not (bytes_eq other.host a.host)
    then bound_elsewhere surface.pane_id
    else not_bound surface.pane_id

-- Why a pane is not the host's to act on, or `none`.
unfoldable pub check_owned : Authz → TreeRow → Surface → Option Reason
unfolding not_owned
check_owned a row surface = elim (owned_by a row surface) [
  | none ↦ some (not_owned a surface (bound_at_pane a.bound surface.pane_id))
  | some b ↦ if not (attached row b) then some (not_attached surface.pane_id) else none
]

-- The first surface that no host can own.
unfoldable pub local_surface : List Surface → Option Surface
local_surface surfaces = find (λ s. not (is_pane s)) surfaces

-- A split that is hidden across a restart has no pane yet.
unfoldable pub is_hidden : Surface → Bool
is_hidden s = bytes_eq s.pane_id [] && not s.visible

-- The loop over the panes: how many are owned, or why one is not.
unfoldable pub owned_count : Authz → TreeRow → ℕ → List Surface → Result Reason ℕ
owned_count a row n [] = ok n
owned_count a row n (s ∷ ss) = elim (is_hidden s) [
  | true ↦ owned_count a row n ss
  | false ↦ elim (check_owned a row s) [
    | some why ↦ err (in_row row.id why)
    | none ↦ owned_count a row (n + 1) ss
  ]
]

-- Why the host does not own every pane of the row, or `none`.
unfoldable pub whole_row_refusal : Authz → TreeRow → Option Reason
unfolding local_surface
whole_row_refusal a row =
    if is_nil (panes row)
    then some (row_without_pane row.id)
    else elim (local_surface row.surfaces) [
      | some s ↦ some (local_terminal row.id s.kind)
      | none ↦ elim (owned_count a row 0 (panes row)) [
        | err why ↦ some why
        | ok n ↦ if n == 0 then some (row_without_pane row.id) else none
      ]
    ]
