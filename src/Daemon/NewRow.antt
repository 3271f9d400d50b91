-- ===== src/Daemon/NewRow.antt =====
-- internal/daemon/proxy.go: the run of a command, and the binding of a new row.
mod Scan
mod Bound
mod Tests
-- `exec`: how the command ended (`none` where it could not run), whether the context of the call had
-- ended, and the cancel hook. The exit code, and the argv of the hook that is run.
use agterm_remote.Bindings.{Binding}
use agterm_remote.Bridge.Backoff.{next}
use agterm_remote.Int.{negsuc, pos, ℤ}
use agterm_remote.Prelude.{
  Bool, List, Option, [], false, if◌then◌else◌, is_nil, none, not, some, suc, true, zero, ℕ, ◌&&◌,
  ◌∷◌,
}
use agterm_remote.Proxy.Tree.{Surface, TreeRow}
use agterm_remote.Result.{Result, err, ok}
use agterm_remote.Text.{Bytes, bytes_eq, codes, equal_fold}

unfoldable pub exec : Option ℤ → Bool → List Bytes → ℤ × Option (List Bytes)
exec result true hook = (pos 1, if is_nil hook then none else some hook)
exec none false hook = (pos 1, none)
exec (some (negsuc n)) false hook = (pos 1, none)
exec (some (pos n)) false hook = (pos n, none)

pub data BindError : Type 0 where
  no_id context_over : BindError
  no_pane : Bytes → BindError
  not_stored : BindError

-- The row and the pane that are found.
abbrev pub Found : Type 0
Found = Bytes × Bytes

unfoldable pub scan_surfaces : Bytes → List Surface → Found → Found
scan_surfaces row_id [] found = found
scan_surfaces row_id (s ∷ surfaces) found = scan_surfaces row_id surfaces (
    if bytes_eq s.kind (codes "left") && not (is_nil s.pane_id) then (row_id, s.pane_id) else found)

unfoldable pub scan_rows : Bytes → List TreeRow → Found → Found
scan_rows id [] found = found
scan_rows id (r ∷ rows) found =
    scan_rows id rows (if equal_fold r.id id then scan_surfaces r.id r.surfaces found else found)

abbrev pub prebind_attempts : ℕ
prebind_attempts = 10

abbrev pub scan_read : Bytes → Option (List TreeRow) → Found → Found
scan_read id none found = found
scan_read id (some rows) found = scan_rows id rows found

-- What an attempt meets: whether the context ends in the wait before it, and the tree that it reads.
abbrev pub Attempt : Type 0
Attempt = Bool × Option (List TreeRow)

-- The loop, by how many attempts are left and whether it is the first one; `none` where the list of
-- attempts is too short.
unfoldable pub find_pane : ℕ → Bool → Bytes → List Attempt → Found → Option (Result BindError Found)
find_pane zero opening id attempts found = some (ok found)
find_pane (suc left) opening id [] found = if is_nil found.1 then none else some (ok found)
find_pane (suc left) opening id ((stops, read) ∷ attempts) found =
    let next = find_pane left false id attempts (scan_read id read found) in
    if not (is_nil found.1)
    then some (ok found)
    else if not opening && stops
    then some (err context_over)
    else next

abbrev pub bind_found :
    Bytes → Bytes → Bytes → Bytes → ℕ → Bytes → Result BindError Found → Result BindError Binding
bind_found host name mux id now pane (err e) = err e
bind_found host name mux id now pane (ok (row, pane_id)) =
    if is_nil pane_id
    then err (no_pane id)
    else ok (record {
      row = row;
      pane_id = pane_id;
      pane = pane;
      host = host;
      name = name;
      mux = mux;
      bound_at = now;
      grants = none;
    })

-- `preBind` up to the store, on the id that the output holds.
unfoldable pub pre_bind :
    Bytes → Bytes → Bytes → ℕ → Bytes → List Attempt → Option (Result BindError Binding)
pre_bind host name mux now id attempts =
    if is_nil id
    then some (err no_id)
    else elim (find_pane prebind_attempts true id attempts ([], [])) [
      | none ↦ none
      | some r ↦ some (bind_found host name mux id now (codes "left") r)
    ]
