-- ===== src/Bindings/Distinct.antt =====
-- internal/bindings/store.go: when two bindings of the database conflict (`supersedes`).
use agterm_remote.Bindings.{Binding, supersedes}
use agterm_remote.Prelude.{
  All, All-append, All-filter, Bool, Bool-cases, List, [], arith, false, filter, inl, inr, ◌++◌,
  ◌∷◌, ◌≡◌, ◌≢◌,
}
use agterm_remote.Text.{bytes_eq_congr, bytes_eq_iff, bytes_eq_sym}

-- No binding of the list supersedes another.
abbrev pub IsDistinct : List Binding → Type 0
IsDistinct [] = Unit
IsDistinct (b ∷ bs) = All (λ x. supersedes b x ≡ false) bs × IsDistinct bs

pub supersedes_sym : (a b : Binding) → supersedes a b ≡ supersedes b a
unfolding supersedes
supersedes_sym a b = ground (
  arith,
  bytes_eq_sym a.host b.host,
  bytes_eq_sym a.name b.name,
  bytes_eq_sym a.row b.row,
  bytes_eq_sym a.pane_id b.pane_id,
  bytes_eq_sym a.pane b.pane,
  bytes_eq_congr a.pane_id b.pane_id [],
)

pub IsDistinct-append :
    (bs : List Binding) (n : Binding)
    → IsDistinct bs
    → All (λ x. supersedes x n ≡ false) bs
    → IsDistinct (bs ++ n ∷ [])
IsDistinct-append [] n d h = (tt, tt)
IsDistinct-append (b ∷ bs) n (p, d) (q, h) =
    (All-append _ bs (n ∷ []) p (q, tt), IsDistinct-append bs n d h)

pub IsDistinct-filter :
    (keep : Binding → Bool) (bs : List Binding) → IsDistinct bs → IsDistinct (filter keep bs)
IsDistinct-filter keep [] d = tt
IsDistinct-filter keep (b ∷ bs) (p, d) = elim (Bool-cases (keep b)) [
  | inl e ↦ rw e (All-filter _ keep bs p, IsDistinct-filter keep bs d)
  | inr e ↦ rw e (IsDistinct-filter keep bs d)
]

-- What `IsDistinct` promises of two bindings at different places.
pub record Apart (a b : Binding) : Type 0 where
  pub session : ¬ ((a.host ≡ b.host) × (a.name ≡ b.name))
  pub pane : a.pane_id ≢ [] → a.pane_id ≢ b.pane_id
  pub slot : a.row ≡ b.row → a.pane ≢ b.pane

-- Two bindings, the first of which does not supersede the second, are not of one session, have no
-- pane id in common that is not empty, and in one row stand in different slots.
pub supersedes-Apart : (a b : Binding) → supersedes a b ≡ false → Apart a b
unfolding supersedes
supersedes-Apart a b h = ground (
  arith,
  bytes_eq_iff b.host a.host,
  bytes_eq_iff b.name a.name,
  bytes_eq_iff b.row a.row,
  bytes_eq_iff b.pane_id a.pane_id,
  bytes_eq_iff a.pane_id [],
  bytes_eq_iff b.pane a.pane,
)
