-- ===== src/Proxy/Scopes/Rows.antt =====
-- internal/proxy/policy.go: `targetRows` and `rowScope`.
use agterm_remote.Prelude.{
  All, All-append, List, Option, [], arith, if_rule, if◌then◌else◌, none, not, refl, some, subst,
  sym, ◌&&◌, ◌++◌, ◌||◌, ◌∷◌, ◌≡◌,
}
use agterm_remote.Proxy.Authz.{Authz, Reason, Verdict, allow}
use agterm_remote.Proxy.Call.{Call, Target}
use agterm_remote.Proxy.Scopes.{raise, row_pane_by, row_scope, row_target, row_targets}
use agterm_remote.Proxy.Targets.{map_row, rows_loop, target_rows, whole_row_refusal}
use agterm_remote.Proxy.Targets.Owned.{WholeRow, whole_row_refusal-WholeRow}
use agterm_remote.Proxy.Tree.{TreeRow, row_at}
use agterm_remote.Result.{>>=-eq-ok, ok, ok-injective}
use agterm_remote.Text.{Bytes, bytes_eq, contains, equal_fold, to_lower}

-- A live row, as the tree of this call shows it.
abbrev pub IsLive : Authz → TreeRow → Type 0
IsLive a row = (id : Bytes) × (row_at a.rows id ≡ some row)

pub map_row-IsLive :
    (a : Authz) (raw : Bytes) {row : TreeRow} → map_row a raw ≡ ok row → IsLive a row
unfolding map_row
map_row-IsLive a raw {row} h =
    let own = bytes_eq raw [] || (not (bytes_eq a.self_row []) && equal_fold raw a.self_row) in
    (if own then a.caller.row else raw, ground arith)

pub rows_loop-IsLive :
    (a : Authz) (raws : List Bytes) (seen : List Bytes) (rows : List TreeRow) {out : List TreeRow}
    → All (IsLive a) rows
    → rows_loop a seen rows raws ≡ ok out
    → All (IsLive a) out
unfolding rows_loop
rows_loop-IsLive a [] seen rows l h = subst (All (IsLive a)) (ok-injective h) l
rows_loop-IsLive a (raw ∷ raws) seen rows {out} l h =
    let (row, e, rest) = >>=-eq-ok (map_row a raw) _ h in
    let old = contains seen (to_lower row.id) in
    rows_loop-IsLive a raws (if old then seen else to_lower row.id ∷ seen)
      (if old then rows else rows ++ row ∷ [])
      (if_rule (All (IsLive a)) old rows (rows ++ row ∷ []) (λ _. l)
        (λ _. All-append (IsLive a) rows (row ∷ []) l (map_row-IsLive a raw e, tt)))
      rest

pub target_rows-IsLive :
    (a : Authz) {rows : List TreeRow} → target_rows a ≡ ok rows → All (IsLive a) rows
unfolding target_rows
target_rows-IsLive a h = rows_loop-IsLive a _ [] [] tt h

-- A target of a row-level call: a live row that is the host's as a whole.
abbrev pub RowTarget : Authz → Target → Type 0
RowTarget a t = (row : TreeRow) × IsLive a row × (t.row ≡ row.id) × WholeRow a row

pub raised : (o : Option Reason) {u : Unit} → raise o ≡ ok u → o ≡ none
raised none h = refl
raised (some why) h = cc

row_target-RowTarget :
    (a : Authz) (row : TreeRow) {t : Target}
    → IsLive a row
    → row_target a row ≡ ok t
    → RowTarget a t
unfolding row_target
row_target-RowTarget a row l h =
    let (u, e, rest) = >>=-eq-ok (raise (whole_row_refusal a row)) _ h in
    (row, l, ground arith, whole_row_refusal-WholeRow a row (raised (whole_row_refusal a row) e))

row_targets-RowTarget :
    (a : Authz) (rows : List TreeRow) {ts : List Target}
    → All (IsLive a) rows
    → row_targets a rows ≡ ok ts
    → All (RowTarget a) ts
unfolding row_targets
row_targets-RowTarget a [] l h = subst (All (RowTarget a)) (ok-injective h) tt
row_targets-RowTarget a (row ∷ rows) (l, ls) h =
    let (t, e, rest) = >>=-eq-ok (row_target a row) _ h in
    let (ts, es, last) = >>=-eq-ok (row_targets a rows) _ rest in
    subst (All (RowTarget a)) (ok-injective last)
      (row_target-RowTarget a row l e, row_targets-RowTarget a rows ls es)

-- What a verdict on a row-level call shows.
pub record RowSafe (a : Authz) (v : Verdict) : Type 0 where
  pub call : Call
  pub allowed : v ≡ allow call none
  pub targets_whole : All (RowTarget a) call.targets

-- A row-level call that is not refused may run at once, and each of its targets is a live row that
-- holds panes only, all of them bound to the host and attached but for hidden ones with no id, and one
-- at least that is.
pub row_scope-RowSafe : (a : Authz) {v : Verdict} → row_scope a ≡ ok v → RowSafe a v
unfolding row_scope
row_scope-RowSafe a h =
    let (rows, e, rest) = >>=-eq-ok (target_rows a) _ h in
    let (ts, es, last) = >>=-eq-ok (row_targets a rows) _ rest in
    let call = a.norm.call in
    record {
      call = record call { targets = ts; pane_by = row_pane_by a };
      allowed = sym (ok-injective last);
      targets_whole = row_targets-RowTarget a rows (target_rows-IsLive a e) es;
    }
