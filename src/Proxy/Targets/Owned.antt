-- ===== src/Proxy/Targets/Owned.antt =====
-- internal/proxy/policy.go: `checkOwned` and `wholeRowRefusal`.
use agterm_remote.Bindings.{Binding}
use agterm_remote.Prelude.{
  All, All-map, All-unfilter, Bool-cases, List, Member, Member-filter, Option, Option-cases, [],
  and_left, and_right, ap, arith, false, find, find-none, here, if◌then◌else◌, inl, inr, is_nil,
  none, not, not-false, refl, some, subst, there, true, ℕ, ◌&&◌, ◌+◌, ◌∷◌, ◌≡◌, ◌≢◌, ◌⊎◌,
}
use agterm_remote.Proxy.Authz.{Authz, not_attached}
use agterm_remote.Proxy.Targets.{
  check_owned, is_hidden, local_surface, not_owned, owned_by, owned_count, whole_row_refusal,
}
use agterm_remote.Proxy.Tree.{Surface, TreeRow, attached, bound_at_pane, is_pane, panes}
use agterm_remote.Result.{Result-cases, ok}
use agterm_remote.Text.{bytes_eq, bytes_eq_iff, equal_fold}

-- The pane is bound to the host, for this row, and still runs `agr open` for that binding.
pub record Owned (a : Authz) (row : TreeRow) (s : Surface) : Type 0 where
  pub binding : Binding
  pub is_bound : bound_at_pane a.bound s.pane_id ≡ some binding
  pub of_host : binding.host ≡ a.host
  pub of_row : equal_fold binding.row row.id ≡ true
  pub is_attached : attached row binding ≡ true

owned_by-bound :
    (a : Authz) (row : TreeRow) (s : Surface) (o : Option Binding) {b : Binding}
    → elim o [
      | none ↦ none
      | some b' ↦ if bytes_eq b'.host a.host && equal_fold b'.row row.id then some b' else none
    ]
      ≡ some b
    → (o ≡ some b) × (bytes_eq b.host a.host ≡ true) × (equal_fold b.row row.id ≡ true)
owned_by-bound a row s none h = cc
owned_by-bound a row s (some b') {b} h =
    elim (Bool-cases (bytes_eq b'.host a.host && equal_fold b'.row row.id)) [
      | inl e ↦
          let same : b' ≡ b = ground (arith, e) in
          (
            ap some same,
            subst (λ z. bytes_eq z.host a.host ≡ true) same (and_left _ _ e),
            subst (λ z. equal_fold z.row row.id ≡ true) same (and_right _ _ e),
          )
      | inr e ↦ absurd (ground (arith, e))
    ]

owned_by-Owned :
    (a : Authz) (row : TreeRow) (s : Surface) (o : Option Binding)
    → owned_by a row s ≡ o
    → elim o [
      | none ↦ some (not_owned a s (bound_at_pane a.bound s.pane_id))
      | some b ↦ if not (attached row b) then some (not_attached s.pane_id) else none
    ]
      ≡ none
    → Owned a row s
unfolding owned_by
owned_by-Owned a row s none e h = cc
owned_by-Owned a row s (some b) e h =
    let (bound, host, of_row) = owned_by-bound a row s (bound_at_pane a.bound s.pane_id) e in
    record {
      binding = b;
      is_bound = bound;
      of_host = (bytes_eq_iff b.host a.host).0 host;
      of_row = of_row;
      is_attached = ground arith;
    }

pub check_owned-Owned :
    (a : Authz) (row : TreeRow) (s : Surface) → check_owned a row s ≡ none → Owned a row s
unfolding check_owned
check_owned-Owned a row s h = owned_by-Owned a row s (owned_by a row s) refl h

-- A pane of the row that is the host's, or a hidden one that does not exist yet.
abbrev pub IsCovered : Authz → TreeRow → Surface → Type 0
IsCovered a row s = (is_pane s ≡ true) × ((is_hidden s ≡ true) ⊎ Owned a row s)

-- Every surface of the row is the host's, and there is one.
pub record WholeRow (a : Authz) (row : TreeRow) : Type 0 where
  pub all_covered : All (IsCovered a row) row.surfaces
  pub some_pane : (s : Surface) × Member s row.surfaces × Owned a row s

abbrev HiddenOrOwned : Authz → TreeRow → Surface → Type 0
HiddenOrOwned a row s = (is_hidden s ≡ true) ⊎ Owned a row s

abbrev SomeOwned : Authz → TreeRow → List Surface → Type 0
SomeOwned a row ss = (s : Surface) × Member s ss × Owned a row s

All-zip :
    (P Q : Surface → Type 0) (ss : List Surface) → All P ss → All Q ss → All (λ s. P s × Q s) ss
All-zip P Q [] p q = tt
All-zip P Q (s ∷ ss) (p, ps) (q, qs) = ((p, q), All-zip P Q ss ps qs)

weaken :
    (a : Authz) (row : TreeRow) (s : Surface) (ss : List Surface) {P : Type 0}
    → P ⊎ SomeOwned a row ss
    → P ⊎ SomeOwned a row (s ∷ ss)
weaken a row s ss (inl p) = inl p
weaken a row s ss (inr (t, m, o)) = inr (t, there m, o)

owned_count_lem :
    (a : Authz) (row : TreeRow) (ss : List Surface) (n : ℕ) {m : ℕ}
    → owned_count a row n ss ≡ ok m
    → All (HiddenOrOwned a row) ss × ((m ≡ n) ⊎ SomeOwned a row ss)
unfolding owned_count
owned_count_lem a row [] n h = (tt, inl (ground arith))
owned_count_lem a row (s ∷ ss) n {m} h = elim (Bool-cases (is_hidden s)) [
  | inl e ↦
      let (covered, found) = owned_count_lem a row ss n (rw (e, owned_count) at h) in
      ((inl e, covered), weaken a row s ss found)
  | inr e ↦ elim (Option-cases (check_owned a row s)) [
    | inr (why, c) ↦ absurd (cc (rw (c, owned_count) at (rw (e, owned_count) at h)))
    | inl c ↦
        let o = check_owned-Owned a row s c in
        let (covered, found) =
          owned_count_lem a row ss (n + 1) (rw (c, owned_count) at (rw (e, owned_count) at h)) in
        ((inr o, covered), inr (s, here, o))
  ]
]

counted :
    (a : Authz) (row : TreeRow)
    → All (λ s. is_pane s ≡ true) row.surfaces
    → {m : ℕ} → owned_count a row 0 (panes row) ≡ ok m
    → m ≢ 0
    → WholeRow a row
unfolding panes
counted a row local h ne =
    let (covered, found) = owned_count_lem a row (panes row) 0 h in
    record {
      all_covered =
          All-zip (λ s. is_pane s ≡ true) (HiddenOrOwned a row) row.surfaces local
            (All-unfilter is_pane (HiddenOrOwned a row) row.surfaces local covered);
      some_pane = elim found [
        | inl zero_panes ↦ absurd (ne zero_panes)
        | inr (s, m, o) ↦ (s, Member-filter is_pane row.surfaces m, o)
      ];
    }

All-panes :
    (ss : List Surface) → All (λ s. not (is_pane s) ≡ false) ss → All (λ s. is_pane s ≡ true) ss
All-panes ss h = All-map (λ s e. not-false (is_pane s) e) ss h

-- A row is refused unless every surface of it is the host's.
pub whole_row_refusal-WholeRow :
    (a : Authz) (row : TreeRow) → whole_row_refusal a row ≡ none → WholeRow a row
unfolding whole_row_refusal local_surface
whole_row_refusal-WholeRow a row h = elim (Bool-cases (is_nil (panes row))) [
  | inl e ↦ cc (rw e at h)
  | inr e ↦
      let h₁ = rw e at h in
      elim (Option-cases (find (λ s. not (is_pane s)) row.surfaces)) [
        | inr (s, f) ↦ cc (rw f at h₁)
        | inl f ↦
            let h₂ = rw f at h₁ in
            elim (Result-cases (owned_count a row 0 (panes row))) [
              | inl (why, c) ↦ cc (rw c at h₂)
              | inr (m, c) ↦
                  let h₃ = rw c at h₂ in
                  counted a row
                    (All-panes row.surfaces (find-none (λ s. not (is_pane s)) row.surfaces f)) c
                    (ground (arith, h₃))
            ]
      ]
]
