-- ===== src/Prelude/Lists.antt =====
-- Lists over the native numbers, and predicates on lists by recursion.
use Prim.Native.Nat.{ℕ, zero, suc, ◌+◌}
use mathlib.Core.Bool.{Bool, true, false, ◌&&◌, ◌||◌}
use mathlib.Core.List.{List, [], ◌∷◌, ◌++◌}
use mathlib.Core.Logic.{inl, inr}
use mathlib.Core.Option.{Option, none, some}
use mathlib.Core.Path.{◌≡◌, subst, refl, ap, ◌∙◌}
use native.Mathlib.Omega.{arith}
use agterm_remote.Prelude.Tests.{Bool-cases, Option-cases, if◌then◌else◌}

module _ {ℓ} {A : Type ℓ} where
  abbrev pub length : List A → ℕ
  length [] = 0
  length (x ∷ xs) = suc (length xs)

  abbrev pub take : ℕ → List A → List A
  take zero xs = []
  take (suc n) [] = []
  take (suc n) (x ∷ xs) = x ∷ take n xs

  abbrev pub drop : ℕ → List A → List A
  drop zero xs = xs
  drop (suc n) [] = []
  drop (suc n) (x ∷ xs) = drop n xs

  abbrev pub replicate : ℕ → A → List A
  replicate zero x = []
  replicate (suc n) x = x ∷ replicate n x

  abbrev pub is_nil : List A → Bool
  is_nil [] = true
  is_nil (x ∷ xs) = false

  abbrev pub is_none : Option A → Bool
  is_none none = true
  is_none (some x) = false

  abbrev pub any : (A → Bool) → List A → Bool
  any p [] = false
  any p (x ∷ xs) = p x || any p xs

  abbrev pub all : (A → Bool) → List A → Bool
  all p [] = true
  all p (x ∷ xs) = p x && all p xs

  abbrev pub filter : (A → Bool) → List A → List A
  filter p [] = []
  filter p (x ∷ xs) = let rest = filter p xs in if p x then x ∷ rest else rest

  abbrev pub find : (A → Bool) → List A → Option A
  find p [] = none
  find p (x ∷ xs) = if p x then some x else find p xs

  -- `x` stands in the list.
  pub data Member (x : A) : List A → Type ℓ where
    here : {xs : List A} → Member x (x ∷ xs)
    there : {y : A} {xs : List A} → Member x xs → Member x (y ∷ xs)

module _ {ℓ κ} {A : Type ℓ} (P : A → Type κ) where
  abbrev pub All : List A → Type κ
  All [] = Unit
  All (x ∷ xs) = P x × All xs

  pub All-append : (xs ys : List A) → All xs → All ys → All (xs ++ ys)
  All-append [] ys _ hy = hy
  All-append (x ∷ xs) ys (px, hx) hy = (px, All-append xs ys hx hy)

  pub All-append_right : (xs ys : List A) → All (xs ++ ys) → All ys
  All-append_right [] ys h = h
  All-append_right (x ∷ xs) ys (_, h) = All-append_right xs ys h

  pub All-member : {x : A} (xs : List A) → All xs → Member x xs → P x
  All-member [] h m = elim m [ ]
  All-member (x ∷ xs) (p, h) here = p
  All-member (x ∷ xs) (p, h) (there m) = All-member xs h m

module _ {ℓ} {A : Type ℓ} (p : A → Bool) where
  pub find-holds : (xs : List A) {x : A} → find p xs ≡ some x → p x ≡ true
  find-holds [] h = cc
  find-holds (y ∷ xs) {x} h = elim (Bool-cases (p y)) [
    | inl e ↦ ground (arith, e)
    | inr e ↦ find-holds xs (rw e at h)
  ]

  pub find-Member : (xs : List A) {x : A} → find p xs ≡ some x → Member x xs
  find-Member [] h = cc
  find-Member (y ∷ xs) {x} h = elim (Bool-cases (p y)) [
    | inl e ↦ let same : y ≡ x = ground (arith, e) in subst (λ z. Member z (y ∷ xs)) same here
    | inr e ↦ there (find-Member xs (rw e at h))
  ]

  pub all-append : (xs ys : List A) → all p xs ≡ true → all p ys ≡ true → all p (xs ++ ys) ≡ true
  all-append [] ys hx hy = hy
  all-append (x ∷ xs) ys hx hy = ground (arith, all-append xs ys)

module _ {ℓ} {A : Type ℓ} where
  pub length-append : (xs ys : List A) → length (xs ++ ys) ≡ length xs + length ys
  length-append [] ys = omega arith
  length-append (x ∷ xs) ys = omega (arith, length-append xs ys)

  -- Two ways to cut one list at tails of one length are the same way.
  pub append_cancel :
      (xs ys s t : List A) → xs ++ s ≡ ys ++ t → length s ≡ length t → (xs ≡ ys) × (s ≡ t)
  append_cancel [] [] s t e h = (refl, e)
  append_cancel [] (y ∷ ys) s t e h = absurd (omega (arith, ap length e, length-append ys t))
  append_cancel (x ∷ xs) [] s t e h = absurd (omega (arith, ap length e, length-append xs s))
  append_cancel (x ∷ xs) (y ∷ ys) s t e h = ground (arith, append_cancel xs ys s t)

pub All-filter {ℓ κ} :
    {A : Type ℓ} (P : A → Type κ) (p : A → Bool) (xs : List A) → All P xs → All P (filter p xs)
All-filter P p [] h = tt
All-filter P p (x ∷ xs) (q, h) = elim (Bool-cases (p x)) [
  | inl e ↦ rw e (q, All-filter P p xs h)
  | inr e ↦ rw e (All-filter P p xs h)
]

-- Every kept element passes the test.
pub All-kept {ℓ} : {A : Type ℓ} (p : A → Bool) (xs : List A) → All (λ x. p x ≡ true) (filter p xs)
All-kept p [] = tt
All-kept p (x ∷ xs) = elim (Bool-cases (p x)) [
  | inl e ↦ rw e (e, All-kept p xs)
  | inr e ↦ rw e (All-kept p xs)
]

pub All-map {ℓ κ μ} :
    {A : Type ℓ} {P : A → Type κ} {Q : A → Type μ} (f : (x : A) → P x → Q x) (xs : List A)
    → All P xs
    → All Q xs
All-map f [] h = tt
All-map f (x ∷ xs) (p, h) = (f x p, All-map f xs h)

module _ {ℓ} {A : Type ℓ} (p : A → Bool) where
  pub find-none : (xs : List A) → find p xs ≡ none → All (λ x. p x ≡ false) xs
  find-none [] h = tt
  find-none (x ∷ xs) h = elim (Bool-cases (p x)) [
    | inl e ↦ let never : false ≡ true = ground (arith, e) in cc
    | inr e ↦ (e, find-none xs (rw e at h))
  ]

  Member-cons :
      {x y : A} (xs ys : List A)
      → (Member x xs → Member x ys)
      → Member x (y ∷ xs)
      → Member x (y ∷ ys)
  Member-cons xs ys f here = here
  Member-cons xs ys f (there m) = there (f m)

  pub Member-filter : {x : A} (xs : List A) → Member x (filter p xs) → Member x xs
  Member-filter [] m = elim m [ ]
  Member-filter {x} (y ∷ xs) m = elim (Bool-cases (p y)) [
    | inl e ↦ Member-cons (filter p xs) xs (λ k. Member-filter xs k) (rw e at m)
    | inr e ↦ there (Member-filter xs (rw e at m))
  ]

  -- What holds of every kept element holds of all, where all are kept.
  pub All-unfilter {κ} :
      (P : A → Type κ) (xs : List A) → All (λ x. p x ≡ true) xs → All P (filter p xs) → All P xs
  All-unfilter P [] h k = tt
  All-unfilter P (x ∷ xs) (e, h) k =
      let k' : P x × All P (filter p xs) = rw e at k in (k'.0, All-unfilter P xs h k'.1)

abbrev pub find_last {ℓ} : {A : Type ℓ} → (A → Bool) → List A → Option A
find_last p [] = none
find_last p (x ∷ xs) = elim (find_last p xs) [
  | some y ↦ some y
  | none ↦ if p x then some x else none
]

pub find_last-Member {ℓ} :
    {A : Type ℓ} (p : A → Bool) (xs : List A) {x : A}
    → find_last p xs ≡ some x
    → Member x xs × (p x ≡ true)
find_last-Member p [] h = cc
find_last-Member p (y ∷ xs) {x} h = elim (Option-cases (find_last p xs)) [
  | inr (z, e) ↦
      let found : find_last p xs ≡ some x = e ∙ (rw e at h) in
      let (m, t) = find_last-Member p xs found in (there m, t)
  | inl e ↦ elim (Bool-cases (p y)) [
    | inl t ↦
        let same : y ≡ x = ground (arith, e, t) in
        (subst (λ z. Member z (y ∷ xs)) same here, subst (λ z. p z ≡ true) same t)
    | inr t ↦ let never : ⊥ = ground (arith, e, t) in absurd never
  ]
]
