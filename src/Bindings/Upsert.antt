-- ===== src/Bindings/Upsert.antt =====
-- internal/bindings/store.go: `upsert` and an independent description of it.
use agterm_remote.Bindings.{Binding, Grant, is_session, supersedes, upsert, upsert_loop}
use agterm_remote.Bindings.Distinct.{
  IsDistinct, IsDistinct-append, IsDistinct-filter, supersedes_sym,
}
use agterm_remote.Prelude.{
  All, All-kept, All-map, Bool-cases, List, Option, [], append_assoc, arith, false, filter,
  if◌then◌else◌, inl, inr, is_none, not, not-true, refl, true, ◌&&◌, ◌++◌, ◌∙◌, ◌∷◌, ◌≡◌,
}

-- The grants that `next` ends with: its own, else those of the bindings of its session.
abbrev pub inherited : Binding → Option (List Grant) → List Binding → Option (List Grant)
inherited next g [] = g
inherited next g (b ∷ bs) =
    inherited next (if is_session next.host next.name b && is_none g then b.grants else g) bs

abbrev pub kept : Binding → List Binding → List Binding
kept next = filter (λ b. not (supersedes next b))

abbrev pub with_grants : Binding → Option (List Grant) → Binding
with_grants next g = record next { grants = g }

supersedes-with_grants :
    (next b : Binding) (g : Option (List Grant))
    → supersedes (with_grants next g) b ≡ supersedes next b
unfolding supersedes
supersedes-with_grants next b g = refl

is_session-supersedes :
    (next b : Binding) → is_session next.host next.name b ≡ true → supersedes next b ≡ true
unfolding supersedes
is_session-supersedes next b h = ground arith

-- One round of the loop.
loop_step :
    (filtered : List Binding) (next b : Binding) (bs : List Binding) (g : Option (List Grant))
    → upsert_loop filtered (with_grants next g) (b ∷ bs)
      ≡ upsert_loop
          (if supersedes next b then filtered else filtered ++ b ∷ [])
          (with_grants next (if is_session next.host next.name b && is_none g then b.grants else g))
          bs
unfolding upsert_loop
loop_step filtered next b bs g =
    ground (arith, supersedes-with_grants next b g, is_session-supersedes next b)

gather :
    (filtered : List Binding) (next b : Binding) (bs last : List Binding)
    → (if supersedes next b then filtered else filtered ++ b ∷ []) ++ (kept next bs ++ last)
      ≡ filtered ++ (kept next (b ∷ bs) ++ last)
gather filtered next b bs last = elim (Bool-cases (supersedes next b)) [
  | inl e ↦ rw e
  | inr e ↦ rw e (append_assoc filtered (b ∷ []) _)
]

upsert_loop_lem :
    (filtered : List Binding) (next : Binding) (g : Option (List Grant)) (bs : List Binding)
    → upsert_loop filtered (with_grants next g) bs
      ≡ filtered ++ (kept next bs ++ with_grants next (inherited next g bs) ∷ [])
upsert_loop_lem filtered next g [] = unfold upsert_loop in refl
upsert_loop_lem filtered next g (b ∷ bs) =
    let g' = if is_session next.host next.name b && is_none g then b.grants else g in
    loop_step filtered next b bs g
    ∙ upsert_loop_lem (if supersedes next b then filtered else filtered ++ b ∷ []) next g' bs
    ∙ gather filtered next b bs (with_grants next (inherited next g' bs) ∷ [])

-- `upsert` removes exactly what the new binding supersedes, keeps the others in their order and
-- puts the new binding last, with its own grants or, where it has none, its session's.
pub upsert_lem :
    (current : List Binding) (next : Binding)
    → upsert current next
      ≡ kept next current ++ with_grants next (inherited next next.grants current) ∷ []
unfolding upsert
upsert_lem current next = upsert_loop_lem [] next next.grants current

last-apart :
    (next : Binding) (g : Option (List Grant)) (bs : List Binding)
    → All (λ x. supersedes x (with_grants next g) ≡ false) (kept next bs)
last-apart next g bs =
    All-map
      (λ x h.
        supersedes_sym x (with_grants next g) ∙ supersedes-with_grants next x g ∙ not-true _ h)
      (kept next bs) (All-kept (λ b. not (supersedes next b)) bs)

-- Storing any binding keeps the database free of conflicts.
pub upsert-IsDistinct :
    (current : List Binding) (next : Binding)
    → IsDistinct current
    → IsDistinct (upsert current next)
upsert-IsDistinct current next d = rw upsert_lem (
    IsDistinct-append (kept next current) (with_grants next (inherited next next.grants current))
      (IsDistinct-filter (λ b. not (supersedes next b)) current d)
      (last-apart next (inherited next next.grants current) current))
