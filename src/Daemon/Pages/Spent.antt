-- ===== src/Daemon/Pages/Spent.antt =====
-- internal/daemon/pageshim.go: `remember`; the released tokens that the shim still knows.
use agterm_remote.Daemon.Pages.{Shim, forget_oldest, max_spent_tokens, remember}
use agterm_remote.Prelude.{
  Bool-cases, List, [], arith, false, filter, if_rule, inl, inr, length, ltb, not, refl, subst,
  true, ◌++◌, ◌||◌, ◌∷◌, ◌≡◌,
}
use agterm_remote.Text.{Bytes, bytes_eq, bytes_eq-apart, bytes_eq_iff, contains}
use mathlib.Core.Bool.{false≢true}

-- Every released token that is known is listed, and so counted.
abbrev pub Listed : Shim → Type 0
Listed s = (r : Bytes) → contains s.released r ≡ true → contains s.spent_list r ≡ true

contains-append :
    (xs ys : List Bytes) (r : Bytes) → contains (xs ++ ys) r ≡ (contains xs r || contains ys r)
contains-append [] ys r = refl
contains-append (x ∷ xs) ys r = ground (arith, contains-append xs ys r)

-- A filter against a token keeps none of it.
contains-filter :
    (t r : Bytes) (l : List Bytes)
    → contains (filter (λ x. not (bytes_eq x t)) l) r ≡ true
    → (contains l r ≡ true) × (bytes_eq t r ≡ false)
contains-filter t r [] h = absurd (false≢true h)
contains-filter t r (x ∷ l) h = elim (Bool-cases (bytes_eq x t)) [
  | inl e ↦ let (k, n) = contains-filter t r l (rw e at h) in (ground (arith, k), n)
  | inr e ↦ elim (Bool-cases (bytes_eq x r)) [
    | inl y ↦ (
      rw y refl,
      bytes_eq-apart r t (subst (λ z. bytes_eq z t ≡ false) ((bytes_eq_iff x r).0 y) e),
    )
    | inr y ↦ let (k, n) = contains-filter t r l (rw (e, y) at h) in (ground (arith, k), n)
  ]
]

forget_oldest-Listed :
    (released l : List Bytes) (s : Shim)
    → ((r : Bytes) → contains released r ≡ true → contains l r ≡ true)
    → Listed (forget_oldest released l s)
forget_oldest-Listed released [] s k = k
forget_oldest-Listed released (t ∷ ts) s k =
    if_rule Listed (ltb max_spent_tokens (length (t ∷ ts)))
      (record s { released = filter (λ r. not (bytes_eq r t)) released; spent_list = ts })
      (record s { released = released; spent_list = t ∷ ts })
      (λ _ r h. let (known, other) = contains-filter t r released h in rw other at (k r known))
      (λ _. k)

pub remember-Listed : (token : Bytes) (s : Shim) → Listed s → Listed (remember token s)
unfolding remember
remember-Listed token s k =
    forget_oldest-Listed (token ∷ s.released) (s.spent_list ++ token ∷ []) s (λ r h.
      let listed = contains-append s.spent_list (token ∷ []) r in
      elim (Bool-cases (bytes_eq token r)) [
        | inl e ↦ ground (arith, listed, e)
        | inr e ↦
            let known : contains s.released r ≡ true = rw e at h in
            ground (arith, listed, k r known)
      ])
