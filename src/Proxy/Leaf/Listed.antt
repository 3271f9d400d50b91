-- ===== src/Proxy/Leaf/Listed.antt =====
-- internal/proxy/policy.go: the leaf that `matchLeaf` returns.
use agterm_remote.Prelude.{
  Bool-cases, List, Member, Option, [], ap, arith, drop, here, inl, inr, length, none, refl, some,
  subst, sym, there, true, ℕ, ◌&&◌, ◌++◌, ◌∙◌, ◌∷◌, ◌≡◌, ◌≤◌, ◌⊎◌,
}
use agterm_remote.Proxy.Leaf.{
  MatchedLeaf, best_leaf, better, has_prefix, longer_than, match_leaf, refusal, refused_leaves,
}
use agterm_remote.Proxy.Schema.{LeafSpec, allowlist}
use agterm_remote.Result.{err, ok}
use agterm_remote.Text.{Bytes, bytes_eq_iff}

abbrev Fits : List Bytes → LeafSpec → Type 0
Fits argv leaf = has_prefix argv leaf.path ≡ true

has_prefix-split :
    (argv path : List Bytes) → has_prefix argv path ≡ true → argv ≡ path ++ drop (length path) argv
unfolding has_prefix
has_prefix-split argv [] h = refl
has_prefix-split [] (w ∷ path) h = cc
has_prefix-split (a ∷ argv) (w ∷ path) h =
    ground (arith, bytes_eq_iff a w, has_prefix-split argv path)

better-cases :
    (argv : List Bytes) (best : Option LeafSpec) (x : LeafSpec)
    → (better argv best x ≡ best) ⊎ ((better argv best x ≡ some x) × Fits argv x)
unfolding better
better-cases argv best x = elim (Bool-cases (has_prefix argv x.path && longer_than best x)) [
  | inl e ↦ inr (rw e, ground (arith, e))
  | inr e ↦ inl (rw e)
]

-- The best leaf is the one that the search began with, or comes from the list and fits.
best_leaf-Member :
    (leaves : List LeafSpec) (argv : List Bytes) (best : Option LeafSpec) {leaf : LeafSpec}
    → best_leaf argv best leaves ≡ some leaf
    → (best ≡ some leaf) ⊎ (Member leaf leaves × Fits argv leaf)
unfolding best_leaf
best_leaf-Member [] argv best h = inl h
best_leaf-Member (x ∷ leaves) argv best {leaf} h =
    elim (best_leaf-Member leaves argv (better argv best x) h) [
      | inr (m, f) ↦ inr (there m, f)
      | inl e ↦ elim (better-cases argv best x) [
        | inl same ↦ inl (sym same ∙ e)
        | inr (new, f) ↦
            let equal : x ≡ leaf = ground (arith, e, new) in
            inr (subst (λ l. Member l (x ∷ leaves)) equal here, subst (Fits argv) equal f)
      ]
    ]

-- The length of the path found so far.
abbrev reach : Option LeafSpec → ℕ
reach none = 0
reach (some leaf) = length leaf.path

reach-better :
    (argv : List Bytes) (best : Option LeafSpec) (x : LeafSpec)
    → reach best ≤ reach (better argv best x)
unfolding better
reach-better argv none x = omega arith
reach-better argv (some b) x = ground arith

reach-best_leaf :
    (leaves : List LeafSpec) (argv : List Bytes) (best : Option LeafSpec)
    → reach best ≤ reach (best_leaf argv best leaves)
unfolding best_leaf
reach-best_leaf [] argv best = omega arith
reach-best_leaf (x ∷ leaves) argv best =
    omega (arith, reach-better argv best x, reach-best_leaf leaves argv (better argv best x))

better-reach :
    (argv : List Bytes) (best : Option LeafSpec) (x : LeafSpec)
    → Fits argv x
    → length x.path ≤ reach (better argv best x)
unfolding better
better-reach argv none x f = ground arith
better-reach argv (some b) x f = ground arith

best_leaf-longest :
    (leaves : List LeafSpec) (argv : List Bytes) (best : Option LeafSpec) (leaf : LeafSpec)
    → Member leaf leaves
    → Fits argv leaf
    → length leaf.path ≤ reach (best_leaf argv best leaves)
unfolding best_leaf
best_leaf-longest [] argv best leaf m f = elim m [ ]
best_leaf-longest (x ∷ leaves) argv best leaf here f =
    omega (arith, better-reach argv best x f, reach-best_leaf leaves argv (better argv best x))
best_leaf-longest (x ∷ leaves) argv best leaf (there m) f =
    best_leaf-longest leaves argv (better argv best x) leaf m f

from_best :
    (o : Option LeafSpec) (a : Bytes) (argv : List Bytes) {m : MatchedLeaf}
    → elim o [
      | some leaf ↦ ok (record { spec = leaf; rest = drop (length leaf.path) (a ∷ argv) })
      | none ↦ err (refusal (a ∷ argv) refused_leaves)
    ]
      ≡ ok m
    → (o ≡ some m.spec) × (m.rest ≡ drop (length m.spec.path) (a ∷ argv))
from_best none a argv h = cc
from_best (some leaf) a argv h = ground arith

match_leaf-best :
    (argv : List Bytes) {m : MatchedLeaf}
    → match_leaf argv ≡ ok m
    → (best_leaf argv none allowlist ≡ some m.spec) × (m.rest ≡ drop (length m.spec.path) argv)
unfolding match_leaf
match_leaf-best [] h = cc
match_leaf-best (a ∷ argv) {m} h = from_best (best_leaf (a ∷ argv) none allowlist) a argv h

-- A call goes on only with a leaf of the allowlist; its argv is the leaf's path and then the rest.
pub match_leaf-Member :
    (argv : List Bytes) {m : MatchedLeaf}
    → match_leaf argv ≡ ok m
    → Member m.spec allowlist × (argv ≡ m.spec.path ++ m.rest)
match_leaf-Member argv {m} h =
    let (found, rest) = match_leaf-best argv h in
    elim (best_leaf-Member allowlist argv none found) [
      | inl e ↦ absurd (ground (arith, e))
      | inr (listed, f) ↦
          (listed, has_prefix-split argv m.spec.path f ∙ ap (λ r. m.spec.path ++ r) (sym rest))
    ]

-- No leaf of the allowlist that fits the argv has a longer path than the one that it gets.
pub match_leaf-longest :
    (argv : List Bytes) {m : MatchedLeaf} (leaf : LeafSpec)
    → match_leaf argv ≡ ok m
    → Member leaf allowlist
    → has_prefix argv leaf.path ≡ true
    → length leaf.path ≤ length m.spec.path
match_leaf-longest argv {m} leaf h listed f =
    let (found, rest) = match_leaf-best argv h in
    rw found at (best_leaf-longest allowlist argv none leaf listed f)
