-- ===== src/Bridge/Supervisor/Stops.antt =====
-- internal/bridge/supervisor.go: the return of `Run`.
-- At most how many steps of `Run` are left from a phase where it must stop, when no mark and no timer
-- is received on the way.
use agterm_remote.Bridge.Supervisor.{
  OtherStep, Phase, Reach, RunStep, Supervisor, back_off, backing_off, cleared, context_ends, down,
  exit_clear, exited, failed, failed_stop, failed_wait, finish, leaving, loop_start, loop_stop,
  looping, mark_sees, mark_sends, others, promote, receive, returned, runs, see_alive, see_exit,
  see_stop, see_timer, start_fails, start_works, started, starting, steps, stop_called, stop_clear,
  stop_down, stopped, stopping, stopping_process, tell_connecting, tell_down, wait_over, wait_stop,
  waiting, watching,
}
use agterm_remote.Bridge.Supervisor.Consistent.{
  IsConsistent, Reach-IsConsistent, phase_facts, is_returned,
}
use agterm_remote.Prelude.{
  Bool, ap, arith, false, if◌then◌else◌, inl, inr, refl, suc, sym, true, ℕ, ◌+◌, ◌<◌, ◌∙◌, ◌≡◌, ◌≤◌,
  ◌⊎◌,
}
use mathlib.Core.Bool.{false≢true}

abbrev rank : Phase → ℕ
rank starting = 10
rank started = 9
rank (watching p) = 7
rank exited = 6
rank cleared = 5
rank backing_off = 4
rank waiting = 3
rank stopping_process = 3
rank stopped = 2
rank looping = 2
rank failed = 2
rank leaving = 1
rank returned = 0

abbrev count : Bool → ℕ
count b = if b then 1 else 0

abbrev left : Supervisor → ℕ
left s = rank s.phase + count s.alive + count s.timer

count-le : (b : Bool) → count b ≤ 1
count-le b = ground arith

rank-le : (p : Phase) → rank p ≤ 10
rank-le (watching b) = omega arith
rank-le _ = omega arith

left-le : (s : Supervisor) → left s ≤ 12
left-le s = omega (arith, rank-le s.phase, count-le s.alive, count-le s.timer)

left-promote : (p : Bool) (t : Supervisor) → t.phase ≡ watching p → left (promote p t) ≡ left t
left-promote true t e = refl
left-promote false t e = omega (arith, ap rank e)

-- Each step of `Run` brings it nearer to its return.
RunStep-left : {s t : Supervisor} → stopping s ≡ true → RunStep s t → left t < left s
RunStep-left {s} st (loop_stop e _) = omega (arith, ap rank e)
RunStep-left {s} st (loop_start e q) = absurd (false≢true (sym q ∙ st))
RunStep-left {s} st (start_fails e) = omega (arith, ap rank e)
RunStep-left {s} st (start_works e) = omega (arith, ap rank e)
RunStep-left {s} st (failed_stop e _) = omega (arith, ap rank e)
RunStep-left {s} st (failed_wait d e q) = absurd (false≢true (sym q ∙ st))
RunStep-left {s} st (tell_connecting e) = omega (arith, ap rank e, count-le s.timer)
RunStep-left {s} st (see_stop p e _) = omega (arith, ap rank e)
RunStep-left {s} st (see_alive p e a) =
    omega (arith, left-promote p (record s { alive = false }) e, ap count a)
RunStep-left {s} st (see_timer p e a) =
    omega (arith, left-promote p (record s { timer = false }) e, ap count a)
RunStep-left {s} st (see_exit p e) = omega (arith, ap rank e)
RunStep-left {s} st (exit_clear e) = omega (arith, ap rank e)
RunStep-left {s} st (tell_down e) = omega (arith, ap rank e)
RunStep-left {s} st (back_off d n e) = omega (arith, ap rank e)
RunStep-left {s} st (wait_stop e _) = omega (arith, ap rank e)
RunStep-left {s} st (wait_over e) = omega (arith, ap rank e)
RunStep-left {s} st (stop_clear e) = omega (arith, ap rank e)
RunStep-left {s} st (stop_down e) = omega (arith, ap rank e)
RunStep-left {s} st (finish e) = omega (arith, ap rank e)

stopping-promote : (p : Bool) (t : Supervisor) → stopping (promote p t) ≡ stopping t
stopping-promote true t = refl
stopping-promote false t = refl

RunStep-stopping : {s t : Supervisor} → RunStep s t → stopping t ≡ stopping s
RunStep-stopping {s} (see_alive p e a) = stopping-promote p (record s { alive = false })
RunStep-stopping {s} (see_timer p e a) = stopping-promote p (record s { timer = false })
RunStep-stopping _ = refl

-- How many marks a step sends.
abbrev pub marks : {s t : Supervisor} → OtherStep s t → ℕ
marks (mark_sends _ _) = 1
marks _ = 0

OtherStep-stopping : {s t : Supervisor} → OtherStep s t → stopping s ≡ true → stopping t ≡ true
OtherStep-stopping stop_called st = ground arith
OtherStep-stopping context_ends st = ground arith
OtherStep-stopping _ st = st

OtherStep-left : {s t : Supervisor} (x : OtherStep s t) → left t ≤ left s + marks x
OtherStep-left (mark_sends n e) = omega arith
OtherStep-left (mark_sees e) = omega arith
OtherStep-left stop_called = omega arith
OtherStep-left context_ends = omega arith
OtherStep-left (receive c cs e) = omega arith

-- An execution, with its number of steps of `Run` and of marks sent.
pub data Execution (s : Supervisor) : ℕ → ℕ → Supervisor → Type 0 where
  ends : Execution s 0 0 s
  by_run : {n m : ℕ} {t u : Supervisor} → Execution s n m t → RunStep t u → Execution s (suc n) m u
  by_other :
      {n m : ℕ} {t u : Supervisor}
      → Execution s n m t
      → (x : OtherStep t u) → Execution s n (marks x + m) u

Execution-left :
    {s t : Supervisor} {n m : ℕ}
    → stopping s ≡ true
    → Execution s n m t
    → (stopping t ≡ true) × (n + left t ≤ left s + m)
Execution-left st ends = (st, omega arith)
Execution-left st (by_run x r) =
    let (a, b) = Execution-left st x in (RunStep-stopping r ∙ a, omega (arith, b, RunStep-left a r))
Execution-left st (by_other x o) =
    let (a, b) = Execution-left st x in (OtherStep-stopping o a, omega (arith, b, OtherStep-left o))

Execution-Reach : {s t : Supervisor} {n m : ℕ} → Reach s → Execution s n m t → Reach t
Execution-Reach r ends = r
Execution-Reach r (by_run x y) = steps (Execution-Reach r x) (runs y)
Execution-Reach r (by_other x y) = steps (Execution-Reach r x) (others y)

-- `Run` has returned, and left nothing behind.
pub record HasReturned (s : Supervisor) : Type 0 where
  pub is_over : s.phase ≡ returned
  pub no_process : s.process ≡ false
  pub is_down : s.state ≡ down
  pub is_closed : s.closed ≡ true

-- Unless it has returned, `Run` has a step to make.
progress :
    (s : Supervisor) (p : Phase)
    → s.phase ≡ p
    → IsConsistent s
    → stopping s ≡ true
    → HasReturned s ⊎ ((t : Supervisor) × RunStep s t)
progress s looping e c st = inr (_, loop_stop e st)
progress s starting e c st = inr (_, start_fails e)
progress s failed e c st = inr (_, failed_stop e st)
progress s started e c st = inr (_, tell_connecting e)
progress s (watching p) e c st = inr (_, see_stop p e st)
progress s exited e c st = inr (_, exit_clear e)
progress s cleared e c st = inr (_, tell_down e)
progress s backing_off e c st = inr (_, back_off 0 0 e)
progress s waiting e c st = inr (_, wait_stop e st)
progress s stopping_process e c st = inr (_, stop_clear e)
progress s stopped e c st = inr (_, stop_down e)
progress s leaving e c st = inr (_, finish e)
progress s returned e c st =
    let (a, b) = phase_facts c e in
    inl (record {
      is_over = e;
      no_process = a;
      is_down = b;
      is_closed = c.closed_iff ∙ ap is_returned e;
    })

-- Once `Stop` was called or the context ended, `Run` makes at most 12 further steps and one more for
-- each mark that `MarkAlive` sends in the meantime, whatever else happens, and as long as it has not
-- returned it has a step to make; when it has, no process is recorded, the state is down and the
-- channel of changes is closed.
pub stopping-returns :
    {s t : Supervisor} {n m : ℕ}
    → Reach s
    → stopping s ≡ true
    → Execution s n m t
    → (n ≤ 12 + m) × (HasReturned t ⊎ ((u : Supervisor) × RunStep t u))
stopping-returns {s} {t} r st x =
    let (a, b) = Execution-left st x in
    (
      omega (arith, b, left-le s),
      progress t t.phase refl (Reach-IsConsistent (Execution-Reach r x)) a,
    )
