-- ===== src/Bridge/Backoff/Bounds.antt =====
-- internal/bridge/backoff.go: bounds of the delays.
use agterm_remote.Bridge.Backoff.{
  Attempt, base_of, delays, draws, initial_backoff, jitter, max_backoff, next, second,
}
use agterm_remote.Prelude.{
  All, List, [], arith, drop, if_rule, inl, inr, ltb, refl, suc, zero, ℕ, ◌*◌, ◌+◌, ◌/◌, ◌<◌, ◌∷◌,
  ◌≡◌, ◌≤◌, ◌⊎◌,
}
use native.Mathlib.Nat.{mul-le-mul_left}

-- The jittered delay is within a fifth of its base.
jitter-bounds :
    (draw base : ℕ)
    → draw < draws
    → 5 ≤ base
    → (5 * jitter draw base ≤ 6 * base) × (4 * base < 5 * (jitter draw base + 1))
unfolding jitter
jitter-bounds draw base h b =
    let p : base * draw ≤ base * draws = mul-le-mul_left base (omega (arith, h)) in
    let value = (base * (4 * draws + 2 * draw)) / (5 * draws) in
    let low : 4 * base < 5 * (value + 1) = omega (arith, p) in
    let high : 5 * value ≤ 6 * base = omega (arith, p) in
    if_rule (λ v. (5 * v ≤ 6 * base) × (4 * base < 5 * (v + 1))) (ltb value 1) 1 value
      (λ e. absurd (ground (arith, e, low, b))) (λ _. (high, low))

abbrev pub Bounded : ℕ → Type 0
Bounded d = (4 * second ≤ 5 * d) × (d ≤ 36 * second)

base_of-bounds :
    (previous connected : ℕ)
    → (previous ≡ 0) ⊎ Bounded previous
    → (second ≤ base_of previous connected) × (base_of previous connected ≤ 30 * second)
unfolding base_of initial_backoff max_backoff second
base_of-bounds previous connected p = ground arith

next-Bounded :
    (draw previous connected : ℕ)
    → draw < draws
    → (previous ≡ 0) ⊎ Bounded previous
    → Bounded (next draw previous connected)
unfolding next second
next-Bounded draw previous connected h p =
    let (lo, hi) = base_of-bounds previous connected p in
    let (a, b) = jitter-bounds draw (base_of previous connected) h (omega (arith, lo)) in
    (omega (arith, b, lo), omega (arith, a, hi))

-- An attempt whose draw `rand` can make.
abbrev pub IsDrawn : Attempt → Type 0
IsDrawn a = a.draw < draws

delays_from-Bounded :
    (previous : ℕ) (runs : List Attempt)
    → (previous ≡ 0) ⊎ Bounded previous
    → All IsDrawn runs
    → All Bounded (delays previous runs)
unfolding delays
delays_from-Bounded previous [] p _ = tt
delays_from-Bounded previous (a ∷ runs) p (h, hs) =
    let b = next-Bounded a.draw previous a.connected h p in
    (b, delays_from-Bounded (next a.draw previous a.connected) runs (inr b) hs)

-- Every delay of a run is from 0.8 to 36 seconds, whatever the draws and the connections.
pub delays-Bounded : (runs : List Attempt) → All IsDrawn runs → All Bounded (delays 0 runs)
delays-Bounded runs h = delays_from-Bounded 0 runs (inl refl) h

-- An attempt that does not reset the series: its connection stood at most 30 seconds.
abbrev pub IsShort : Attempt → Type 0
IsShort a = IsDrawn a × (a.connected ≤ 30 * second)

-- A delay from which `k` more short attempts bring the series to its cap.
abbrev need : ℕ → ℕ
need zero = 15000000000
need (suc k) = 5 * (need k + 1) / 8 + 1

abbrev Long : ℕ → Type 0
Long d = 24 * second ≤ d

need_small : (k : ℕ) → need k ≤ 15000000000
need_small zero = omega arith
need_small (suc k) = omega (arith, need_small k)

base_of_short :
    (previous connected : ℕ)
    → connected ≤ 30 * second
    → 0 < previous
    → (base_of previous connected ≡ 30 * second) ⊎ (base_of previous connected ≡ 2 * previous)
unfolding base_of max_backoff second
base_of_short previous connected c p = ground arith

next_grows :
    (previous : ℕ) (a : Attempt)
    → IsShort a
    → second ≤ 2 * previous
    → Long (next a.draw previous a.connected)
      ⊎ (8 * previous < 5 * (next a.draw previous a.connected + 1))
unfolding next second
next_grows previous a (h, c) p =
    let base = base_of previous a.connected in
    elim (base_of_short previous a.connected c (omega (arith, p))) [
      | inl e ↦
          let (_, low) = jitter-bounds a.draw base h (omega (arith, e)) in
          inl (omega (arith, e, low))
      | inr e ↦
          let (_, low) = jitter-bounds a.draw base h (omega (arith, e, p)) in
          inr (omega (arith, e, low))
    ]

next-need :
    (k previous : ℕ) (a : Attempt)
    → IsShort a
    → second ≤ 2 * previous
    → need (suc k) ≤ previous
    → need k ≤ next a.draw previous a.connected
unfolding second
next-need k previous a s p n = elim (next_grows previous a s p) [
  | inl long ↦ omega (arith, long, need_small k)
  | inr grown ↦ omega (arith, grown, n)
]

next-Long :
    (previous : ℕ) (a : Attempt)
    → IsShort a
    → need 0 ≤ previous
    → Long (next a.draw previous a.connected)
unfolding second
next-Long previous a s n = elim (next_grows previous a s (omega (arith, n))) [
  | inl long ↦ long
  | inr grown ↦ omega (arith, n, grown)
]

next_big :
    (previous : ℕ) (a : Attempt)
    → IsShort a
    → second ≤ 2 * previous
    → second ≤ 2 * next a.draw previous a.connected
unfolding second
next_big previous a s p = elim (next_grows previous a s p) [
  | inl long ↦ omega (arith, long)
  | inr grown ↦ omega (arith, grown, p)
]

delays-Long :
    (k previous : ℕ) (runs : List Attempt)
    → All IsShort runs
    → second ≤ 2 * previous
    → need k ≤ previous
    → All Long (drop k (delays previous runs))
unfolding delays second
delays-Long zero previous [] s p n = tt
delays-Long (suc k) previous [] s p n = tt
delays-Long zero previous (a ∷ runs) (s, ss) p n =
    let d = next a.draw previous a.connected in
    let long : Long d = next-Long previous a s n in
    (long, delays-Long zero d runs ss (omega (arith, long)) (omega (arith, long)))
delays-Long (suc k) previous (a ∷ runs) (s, ss) p n =
    let d = next a.draw previous a.connected in
    delays-Long k d runs ss (next_big previous a s p) (next-need k previous a s p n)

-- While no connection stands longer than 30 seconds, every delay from the ninth on is at least 24
-- seconds, whatever `rand` draws.
pub delays_settle :
    (runs : List Attempt) → All IsShort runs → All (λ d. 24 * second ≤ d) (drop 8 (delays 0 runs))
unfolding delays second
delays_settle [] s = tt
delays_settle (a ∷ runs) (s, ss) =
    let (lo, _) = next-Bounded a.draw 0 a.connected s.0 (inl refl) in
    delays-Long 7 (next a.draw 0 a.connected) runs ss (omega (arith, lo)) (omega (arith, lo))
