-- ===== src/Proxy/Normalise/Files.antt =====
-- internal/proxy/policy.go: `fileIndex`, the references of a call to the files of its body.
use agterm_remote.Int.{atoi, negsuc, pos, ℤ}
use agterm_remote.Prelude.{
  Bool-cases, Option, [], arith, inl, inr, leb, none, some, subst, sym, ℕ, ◌<◌, ◌==◌, ◌∷◌, ◌≡◌,
}
use agterm_remote.Proxy.Normalise.{canonical, file_index}
use agterm_remote.Result.{ok, ok-injective}
use agterm_remote.Text.{Bytes, bytes_eq, bytes_eq_iff, itoa}
use mathlib.Core.Path.{ap₂}

abbrev Exact : Bytes → ℕ → ℕ → Type 0
Exact digits count n = (digits ≡ itoa n) × (n < count)

canonical-Exact :
    (value digits : Bytes) (count : ℕ) (o : Option ℤ) {n : ℕ}
    → canonical value digits count o ≡ ok n
    → Exact digits count n
unfolding canonical
canonical-Exact value digits count none h = cc
canonical-Exact value digits count (some (negsuc m)) h = cc
canonical-Exact value digits count (some (pos m)) h = elim (Bool-cases (bytes_eq (itoa m) digits)) [
  | inr e ↦ cc (rw e at h)
  | inl e ↦
      let h₁ = rw e at h in
      elim (Bool-cases (leb count m)) [
        | inl f ↦ cc (rw f at h₁)
        | inr f ↦
            subst (Exact digits count) (ok-injective (rw f at h₁))
              (sym ((bytes_eq_iff (itoa m) digits).0 e), ground (arith, f))
      ]
]

-- A file reference that is accepted is the sign @ and the shortest decimal form of an index that is
-- below the number of files sent, so one file has one reference.
pub file_index-Exact :
    (value : Bytes) (count : ℕ) {n : ℕ}
    → file_index value count ≡ ok n
    → (value ≡ b'@' ∷ itoa n) × (n < count)
unfolding file_index
file_index-Exact [] count h = cc
file_index-Exact (c ∷ digits) count {n} h = elim (Bool-cases (c == b'@')) [
  | inr e ↦ cc (rw e at h)
  | inl e ↦
      let (d, l) = canonical-Exact (c ∷ digits) digits count (atoi digits) (rw e at h) in
      let at_sign : c ≡ b'@' = ground (arith, e) in (ap₂ ◌∷◌ at_sign d, l)
]
