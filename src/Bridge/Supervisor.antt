-- ===== src/Bridge/Supervisor.antt =====
-- internal/bridge/supervisor.go: the supervisor of one tunnel. `Run` is a machine whose phases are
-- the points between the sections that take the mutex, receive or send; other goroutines step between
-- them. What a select takes among what is ready, the outcome of a start, and when a process exits are
-- free. The commands of ssh stand in Ssh.
pub mod Ssh
mod Consistent
mod Edges
mod Stops
mod Tests
use agterm_remote.Bridge.Backoff.{next}
use agterm_remote.Prelude.{
  Bool, List, [], false, if◌then◌else◌, length, ltb, suc, true, ℕ, ◌++◌, ◌||◌, ◌∷◌, ◌≡◌,
}

pub data State : Type 0 where
  down up connecting : State

unfoldable pub state_eq : State → State → Bool
state_eq down down = true
state_eq up up = true
state_eq connecting connecting = true
state_eq _ _ = false

-- Where `Run` stands: at the head of its loop, in `start`, after a start that failed, after one that
-- recorded its process, in the select loop (promoted or not), after the process exited, after
-- `clearProcess`, before the delay, in `wait`; in `stopProcess`, after its `clearProcess`; before the
-- deferred `finish`, and after it.
pub data Phase : Type 0 where
  looping starting failed started : Phase
  watching : Bool → Phase
  exited cleared backing_off waiting stopping_process stopped leaving returned : Phase

-- `changes` and `alive` hold what was sent and not received; `timer` is whether the promotion timer
-- may still be received, `marking` the callers of `MarkAlive` that saw a process and have not sent
-- yet.
pub record Supervisor : Type 0 where
  pub state : State
  pub process : Bool
  pub changes : List State
  pub closed : Bool
  pub alive : Bool
  pub stop : Bool
  pub canceled : Bool
  pub marking : ℕ
  pub timer : Bool
  pub previous : ℕ
  pub phase : Phase

-- `init`, at the start of `Run`.
abbrev pub initial : Supervisor
initial = record {
  state = down;
  process = false;
  changes = [];
  closed = false;
  alive = false;
  stop = false;
  canceled = false;
  marking = 0;
  timer = false;
  previous = 0;
  phase = looping;
}

abbrev pub capacity : ℕ
capacity = 16

-- The send with a default case: a change that finds the channel full is dropped.
abbrev pub offer : State → List State → List State
offer new cs = if ltb (length cs) capacity then cs ++ new ∷ [] else cs

-- `setState`: a state that is set already changes nothing.
abbrev pub set_state : State → Supervisor → Supervisor
set_state new s = record s {
  state = new;
  changes = if state_eq s.state new then s.changes else offer new s.changes;
}

abbrev pub clear_process : Supervisor → Supervisor
clear_process s = record s { process = false }

abbrev pub stopping : Supervisor → Bool
stopping s = s.canceled || s.stop

abbrev pub at : Phase → Supervisor → Supervisor
at p s = record s { phase = p }

-- The select loop's reaction to a mark or to the timer.
abbrev pub promote : Bool → Supervisor → Supervisor
promote true s = s
promote false s = at (watching true) (set_state up s)

-- A step of `Run`. `draw` is what `rand` draws, `connected` the time since the start.
pub data RunStep (s : Supervisor) : Supervisor → Type 0 where
  loop_stop : s.phase ≡ looping → stopping s ≡ true → RunStep s (at leaving s)
  loop_start : s.phase ≡ looping → stopping s ≡ false → RunStep s (at starting s)
  start_fails : s.phase ≡ starting → RunStep s (at failed s)
  start_works : s.phase ≡ starting → RunStep s (at started (record s { process = true }))
  failed_stop : s.phase ≡ failed → stopping s ≡ true → RunStep s (at leaving s)
  failed_wait :
      (draw : ℕ)
      → s.phase ≡ failed
      → stopping s ≡ false
      → RunStep s (at waiting (record s { previous = next draw s.previous 0 }))
  tell_connecting :
      s.phase ≡ started
      → RunStep s (at (watching false) (record (set_state connecting s) { timer = true }))
  see_stop :
      (promoted : Bool)
      → s.phase ≡ watching promoted
      → stopping s ≡ true
      → RunStep s (at stopping_process (record s { timer = false }))
  see_alive :
      (promoted : Bool)
      → s.phase ≡ watching promoted
      → s.alive ≡ true
      → RunStep s (promote promoted (record s { alive = false }))
  see_timer :
      (promoted : Bool)
      → s.phase ≡ watching promoted
      → s.timer ≡ true
      → RunStep s (promote promoted (record s { timer = false }))
  see_exit :
      (promoted : Bool)
      → s.phase ≡ watching promoted
      → RunStep s (at exited (record s { timer = false }))
  exit_clear : s.phase ≡ exited → RunStep s (at cleared (clear_process s))
  tell_down : s.phase ≡ cleared → RunStep s (at backing_off (set_state down s))
  back_off :
      (draw connected : ℕ)
      → s.phase ≡ backing_off
      → RunStep s (at waiting (record s { previous = next draw s.previous connected }))
  wait_stop : s.phase ≡ waiting → stopping s ≡ true → RunStep s (at leaving s)
  wait_over : s.phase ≡ waiting → RunStep s (at looping s)
  stop_clear : s.phase ≡ stopping_process → RunStep s (at stopped (clear_process s))
  stop_down : s.phase ≡ stopped → RunStep s (at leaving (set_state down s))
  finish : s.phase ≡ leaving → RunStep s (at returned (record s { closed = true }))

-- A step of another goroutine: the two halves of `MarkAlive`, `Stop`, the context's end, and a
-- receive from `Changes`.
pub data OtherStep (s : Supervisor) : Supervisor → Type 0 where
  mark_sees : s.process ≡ true → OtherStep s (record s { marking = suc s.marking })
  mark_sends : (n : ℕ) → s.marking ≡ suc n → OtherStep s (record s { marking = n; alive = true })
  stop_called : OtherStep s (record s { stop = true })
  context_ends : OtherStep s (record s { canceled = true })
  receive :
      (c : State) (cs : List State) → s.changes ≡ c ∷ cs → OtherStep s (record s { changes = cs })

pub data Step (s t : Supervisor) : Type 0 where
  runs : RunStep s t → Step s t
  others : OtherStep s t → Step s t

pub data Reach : Supervisor → Type 0 where
  begins : Reach initial
  steps : {s t : Supervisor} → Reach s → Step s t → Reach t
