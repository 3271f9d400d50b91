-- ===== src/Daemon/NewRow/Scan.antt =====
-- internal/daemon/proxy.go: what the polls for a new row find.

use agterm_remote.Daemon.NewRow.{
  Attempt, Found, context_over, find_pane, scan_read, scan_rows, scan_surfaces,
}
use agterm_remote.Prelude.{
  Bool, List, Member, Option, [], ap, arith, false, here, if_cases, if_rule, if◌then◌else◌, inl,
  inr, is_nil, map, none, not, refl, some, subst, suc, sym, there, true, zero, ℕ, ◌&&◌, ◌∙◌, ◌∷◌,
  ◌≡◌, ◌⊎◌,
}
use agterm_remote.Proxy.Tree.{Surface, TreeRow}
use agterm_remote.Result.{err, ok, ok-injective}
use agterm_remote.Text.{Bytes, bytes_eq, codes, equal_fold}
use mathlib.Core.Option.{some-injective}

-- A surface of the row that was found.

abbrev pub Surfaced : Bytes → List Surface → Found → Type 0
Surfaced row_id surfaces found =
    (s : Surface) × Member s surfaces
    × (bytes_eq s.kind (codes "left") ≡ true)
    × (row_id ≡ found.0)
    × (s.pane_id ≡ found.1)

scan_surfaces-either :
    (row_id : Bytes) (surfaces : List Surface) (found : Found)
    → (scan_surfaces row_id surfaces found ≡ found)
      ⊎ Surfaced row_id surfaces (scan_surfaces row_id surfaces found)
unfolding scan_surfaces
scan_surfaces-either row_id [] found = inl refl
scan_surfaces-either row_id (s ∷ surfaces) found =
    let Kept : Found → Type 0 = λ (f : Found).
      (scan_surfaces row_id surfaces f ≡ found)
      ⊎ Surfaced row_id (s ∷ surfaces) (scan_surfaces row_id surfaces f) in
    if_rule Kept (bytes_eq s.kind (codes "left") && not (is_nil s.pane_id)) (row_id, s.pane_id)
      found
      (λ t. elim (scan_surfaces-either row_id surfaces (row_id, s.pane_id)) [
        | inl e ↦ inr (
          s,
          here,
          ground (arith, t),
          ap (λ (f : Found). f.0) (sym e),
          ap (λ (f : Found). f.1) (sym e),
        )
        | inr (x, m, k, a, b) ↦ inr (x, there m, k, a, b)
      ])
      (λ _. elim (scan_surfaces-either row_id surfaces found) [
        | inl e ↦ inl e
        | inr (x, m, k, a, b) ↦ inr (x, there m, k, a, b)
      ])

abbrev pub Rowed : Bytes → List TreeRow → Found → Type 0
Rowed id rows found =
    (r : TreeRow) × Member r rows × (equal_fold r.id id ≡ true) × Surfaced r.id r.surfaces found

later_row :
    (id : Bytes) (r : TreeRow) (rows : List TreeRow) (found : Found)
    → Rowed id rows found
    → Rowed id (r ∷ rows) found
later_row id r rows found (x, m, t, k) = (x, there m, t, k)

scan_rows-either :
    (id : Bytes) (rows : List TreeRow) (found : Found)
    → (scan_rows id rows found ≡ found) ⊎ Rowed id rows (scan_rows id rows found)
unfolding scan_rows
scan_rows-either id [] found = inl refl
scan_rows-either id (r ∷ rows) found =
    let here_found = scan_surfaces r.id r.surfaces found in
    let Kept : Found → Type 0 =
      λ (f : Found). (scan_rows id rows f ≡ found) ⊎ Rowed id (r ∷ rows) (scan_rows id rows f) in
    if_rule Kept (equal_fold r.id id) here_found found
      (λ t. elim (scan_rows-either id rows here_found) [
        | inl e ↦ elim (scan_surfaces-either r.id r.surfaces found) [
          | inl k ↦ inl (e ∙ k)
          | inr k ↦ inr (r, here, t, subst (Surfaced r.id r.surfaces) (sym e) k)
        ]
        | inr k ↦ inr (later_row id r rows (scan_rows id rows here_found) k)
      ])
      (λ _. elim (scan_rows-either id rows found) [
        | inl e ↦ inl e
        | inr k ↦ inr (later_row id r rows (scan_rows id rows found) k)
      ])

abbrev pub Seen : Bytes → List Attempt → Found → Type 0
Seen id attempts found =
    (rows : List TreeRow) × Member (some rows) (map (λ (a : Attempt). a.1) attempts)
    × Rowed id rows found

later_seen :
    (id : Bytes) (a : Attempt) (attempts : List Attempt) (found : Found)
    → Seen id attempts found
    → Seen id (a ∷ attempts) found
later_seen id a attempts found (rows, m, k) = (rows, there m, k)

scan_read-either :
    (id : Bytes) (stops : Bool) (read : Option (List TreeRow)) (attempts : List Attempt)
    (found : Found)
    → (scan_read id read found ≡ found)
      ⊎ Seen id ((stops, read) ∷ attempts) (scan_read id read found)
scan_read-either id stops none attempts found = inl refl
scan_read-either id stops (some rows) attempts found = elim (scan_rows-either id rows found) [
  | inl e ↦ inl e
  | inr k ↦ inr (rows, here, k)
]

pub find_pane-either :
    (left : ℕ) (opening : Bool) (id : Bytes) (attempts : List Attempt) (found : Found) {f : Found}
    → find_pane left opening id attempts found ≡ some (ok f)
    → (f ≡ found) ⊎ Seen id attempts f
unfolding find_pane
find_pane-either zero opening id attempts found {f} h =
    inl (sym (ok-injective (some-injective (ok found) (ok f) h)))
find_pane-either (suc left) opening id [] found {f} h =
    elim (if_cases (λ x. x ≡ some (ok f)) (is_nil found.1) none (some (ok found)) h) [
      | inl (_, e) ↦ cc
      | inr (_, e) ↦ inl (sym (ok-injective (some-injective (ok found) (ok f) e)))
    ]
find_pane-either (suc left) opening id ((stops, read) ∷ attempts) found {f} h =
    let next = find_pane left false id attempts (scan_read id read found) in
    let waited = if not opening && stops then some (err context_over) else next in
    elim (if_cases (λ x. x ≡ some (ok f)) (not (is_nil found.1)) (some (ok found)) waited h) [
      | inl (_, e) ↦ inl (sym (ok-injective (some-injective (ok found) (ok f) e)))
      | inr (_, e) ↦
          elim (if_cases (λ x. x ≡ some (ok f)) (not opening && stops) (some (err context_over))
            next e) [
              | inl (_, w) ↦ cc
              | inr (_, w) ↦
                  elim (find_pane-either left false id attempts (scan_read id read found) w) [
                    | inr k ↦ inr (later_seen id (stops, read) attempts f k)
                    | inl k ↦ elim (scan_read-either id stops read attempts found) [
                      | inl q ↦ inl (k ∙ q)
                      | inr q ↦ inr (subst (Seen id ((stops, read) ∷ attempts)) (sym k) q)
                    ]
                  ]
            ]
    ]
