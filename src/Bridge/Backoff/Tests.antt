-- ===== src/Bridge/Backoff/Tests.antt =====
-- Tests of the delays, and their theorems at concrete runs.
-- Ten attempts that fail at once, with the least and the greatest draws in turn.
use agterm_remote.Bridge.Backoff.{
  Attempt, base_of, delays, draws, initial_backoff, jitter, max_backoff, next, second,
}
use agterm_remote.Bridge.Backoff.Bounds.{delays_settle}
use agterm_remote.Prelude.{
  All, List, [], arith, drop, refl, replicate, ℕ, ◌*◌, ◌++◌, ◌-◌, ◌∷◌, ◌≡◌, ◌≤◌,
}

abbrev lost : ℕ → Attempt
lost draw = record { draw = draw; connected = 0 }

abbrev failures : List Attempt
failures = replicate 8 (lost 0) ++ lost (draws - 1) ∷ lost 0 ∷ []

abbrev ms : ℕ
ms = 1000000

delays_test :
    delays 0 failures
    ≡ 800 * ms
      ∷ 1280 * ms
      ∷ 2048 * ms
      ∷ 3276800000
      ∷ 5242880000
      ∷ 8388608000
      ∷ 13421772800
      ∷ 21474836480
      ∷ 35999999999
      ∷ 24000 * ms
      ∷ []
unfolding delays next base_of jitter initial_backoff max_backoff second
delays_test = refl

-- A connection of 31 seconds resets the series.
reset_test : next 0 (36000 * ms) (31000 * ms) ≡ 800 * ms
unfolding next base_of jitter initial_backoff max_backoff second
reset_test = refl

delays_settle_example : All (λ d. 24 * second ≤ d) (drop 8 (delays 0 failures))
unfolding second
delays_settle_example = delays_settle failures (omega arith)
