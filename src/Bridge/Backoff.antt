-- ===== src/Bridge/Backoff.antt =====
-- internal/bridge/backoff.go: the delay before the next attempt. Times are nanoseconds. What
-- `rand.Float64` draws is a fraction `draw / 2 ^ 53`, and the floating-point product is exact here.
mod Bounds
mod Tests
use agterm_remote.Prelude.{List, [], if◌then◌else◌, ltb, ℕ, ◌*◌, ◌+◌, ◌/◌, ◌∷◌}

unfoldable pub second : ℕ
second = 1000000000

unfoldable pub initial_backoff : ℕ
unfolding second
initial_backoff = second

unfoldable pub max_backoff : ℕ
unfolding second
max_backoff = 30 * second

abbrev pub draws : ℕ
draws = 9007199254740992

-- `base + (2 * draw / draws - 1) * base / 5`, rounded down, and at least one nanosecond
unfoldable pub jitter : ℕ → ℕ → ℕ
jitter draw base =
    let value = (base * (4 * draws + 2 * draw)) / (5 * draws) in if ltb value 1 then 1 else value

-- The base of the delay: the doubled previous delay, with its cap.
unfoldable pub base_of : ℕ → ℕ → ℕ
unfolding initial_backoff max_backoff
base_of previous connected =
    if ltb max_backoff connected
    then initial_backoff
    else if ltb 0 previous
    then (if ltb max_backoff (previous * 2) then max_backoff else previous * 2)
    else initial_backoff

unfoldable pub next : ℕ → ℕ → ℕ → ℕ
next draw previous connected = jitter draw (base_of previous connected)

-- One attempt: what `rand` draws after it, and how long its connection stood.
pub record Attempt : Type 0 where
  pub draw : ℕ
  pub connected : ℕ

-- The delays of a run of attempts, as `Run` threads them.
unfoldable pub delays : ℕ → List Attempt → List ℕ
delays previous [] = []
delays previous (a ∷ rest) = let d = next a.draw previous a.connected in d ∷ delays d rest
