-- ===== src/Bridge/Supervisor/Consistent.antt =====
-- internal/bridge/supervisor.go: what holds of a supervisor between any two steps, and how its state
-- changes.
use agterm_remote.Bridge.Backoff.{next}
use agterm_remote.Bridge.Supervisor.{
  OtherStep, Phase, Reach, RunStep, State, Supervisor, at, back_off, backing_off, begins, capacity,
  clear_process, cleared, connecting, down, exit_clear, exited, failed, failed_stop, failed_wait,
  finish, leaving, loop_start, loop_stop, looping, offer, others, promote, receive, returned, runs,
  see_alive, see_exit, see_stop, see_timer, set_state, start_fails, start_works, started, starting,
  state_eq, steps, stop_clear, stop_down, stopped, stopping_process, tell_connecting, tell_down, up,
  wait_over, wait_stop, waiting, watching,
}
use agterm_remote.Prelude.{
  Bool, List, [], ap, arith, false, if_rule, if◌then◌else◌, length, length-append, refl, subst, sym,
  true, ◌∙◌, ◌∷◌, ◌≡◌, ◌≢◌, ◌≤◌,
}

abbrev pub promoted_state : Bool → State
promoted_state p = if p then up else connecting

-- What a phase says of the recorded process and of the state.
abbrev pub At : Phase → Bool → State → Type 0
At started process state = (process ≡ true) × (state ≡ down)
At (watching p) process state = (process ≡ true) × (state ≡ promoted_state p)
At exited process state = (process ≡ true) × (state ≢ down)
At stopping_process process state = (process ≡ true) × (state ≢ down)
At cleared process state = (process ≡ false) × (state ≢ down)
At stopped process state = (process ≡ false) × (state ≢ down)
At _ process state = (process ≡ false) × (state ≡ down)

abbrev pub is_returned : Phase → Bool
is_returned returned = true
is_returned _ = false

pub record IsConsistent (s : Supervisor) : Type 0 where
  pub at_phase : At s.phase s.process s.state
  pub bounded : length s.changes ≤ capacity
  pub closed_iff : s.closed ≡ is_returned s.phase

promoted_state-up : (p : Bool) → promoted_state p ≢ down
promoted_state-up true = cc
promoted_state-up false = cc

length-offer :
    (new : State) (cs : List State) → length cs ≤ capacity → length (offer new cs) ≤ capacity
length-offer new cs h = ground (arith, length-append cs (new ∷ []))

-- `setState` keeps the bound of the channel.
length-set_state :
    (new : State) (s : Supervisor)
    → length s.changes ≤ capacity
    → length (set_state new s).changes ≤ capacity
length-set_state new s h =
    if_rule (λ cs. length cs ≤ capacity) (state_eq s.state new) s.changes (offer new s.changes)
      (λ _. h) (λ _. length-offer new s.changes h)

module _ {s : Supervisor} (c : IsConsistent s) where
  pub phase_facts : {p : Phase} → s.phase ≡ p → At p s.process s.state
  phase_facts e = subst (λ p. At p s.process s.state) e c.at_phase

  pub still_open : {p : Phase} → s.phase ≡ p → is_returned p ≡ false → s.closed ≡ false
  still_open e r = c.closed_iff ∙ ap is_returned e ∙ r

  -- A step between two phases before the end.
  moved :
      {p : Phase} (e : s.phase ≡ p) (q : Phase) (t : Supervisor)
      → is_returned p ≡ false
      → is_returned q ≡ false
      → t.closed ≡ s.closed
      → length t.changes ≤ capacity
      → At q t.process t.state
      → IsConsistent (at q t)
  moved e q t o r cl b a = record {
    at_phase = a;
    bounded = b;
    closed_iff = cl ∙ still_open e o ∙ sym r;
  }

  -- A step that stays in its phase and touches neither the process nor the state.
  stayed :
      {p : Phase} (e : s.phase ≡ p) (t : Supervisor)
      → t.phase ≡ s.phase
      → t.closed ≡ s.closed
      → length t.changes ≤ capacity
      → At p t.process t.state
      → IsConsistent t
  stayed e t ph cl b a = record {
    at_phase = subst (λ q. At q t.process t.state) (sym (ph ∙ e)) a;
    bounded = b;
    closed_iff = cl ∙ c.closed_iff ∙ ap is_returned (sym ph);
  }

  promoted-IsConsistent :
      (p : Bool) (t : Supervisor)
      → s.phase ≡ watching p
      → t.phase ≡ s.phase
      → t.closed ≡ s.closed
      → t.changes ≡ s.changes
      → t.process ≡ s.process
      → t.state ≡ s.state
      → IsConsistent (promote p t)
  promoted-IsConsistent true t e ph cl cs pr st =
      let (a, b) = phase_facts e in stayed e t ph cl (rw cs c.bounded) (pr ∙ a, st ∙ b)
  promoted-IsConsistent false t e ph cl cs pr st =
      moved e (watching true) (set_state up t) refl refl cl
        (length-set_state up t (rw cs c.bounded)) (pr ∙ (phase_facts e).0, refl)

  RunStep-IsConsistent : {t : Supervisor} → RunStep s t → IsConsistent t
  RunStep-IsConsistent (loop_stop e _) = moved e leaving s refl refl refl c.bounded (phase_facts e)
  RunStep-IsConsistent (loop_start e _) =
      moved e starting s refl refl refl c.bounded (phase_facts e)
  RunStep-IsConsistent (start_fails e) = moved e failed s refl refl refl c.bounded (phase_facts e)
  RunStep-IsConsistent (start_works e) =
      moved e started (record s { process = true }) refl refl refl c.bounded
        (refl, (phase_facts e).1)
  RunStep-IsConsistent (failed_stop e _) =
      moved e leaving s refl refl refl c.bounded (phase_facts e)
  RunStep-IsConsistent (failed_wait d e _) =
      moved e waiting (record s { previous = next d s.previous 0 }) refl refl refl c.bounded
        (phase_facts e)
  RunStep-IsConsistent (tell_connecting e) =
      moved e (watching false) (record (set_state connecting s) { timer = true }) refl refl refl
        (length-set_state connecting s c.bounded) ((phase_facts e).0, refl)
  RunStep-IsConsistent (see_stop p e _) =
      let (a, b) = phase_facts e in
      moved e stopping_process (record s { timer = false }) refl refl refl c.bounded
        (a, λ q. promoted_state-up p (sym b ∙ q))
  RunStep-IsConsistent (see_alive p e _) =
      promoted-IsConsistent p (record s { alive = false }) e refl refl refl refl refl
  RunStep-IsConsistent (see_timer p e _) =
      promoted-IsConsistent p (record s { timer = false }) e refl refl refl refl refl
  RunStep-IsConsistent (see_exit p e) =
      let (a, b) = phase_facts e in
      moved e exited (record s { timer = false }) refl refl refl c.bounded
        (a, λ q. promoted_state-up p (sym b ∙ q))
  RunStep-IsConsistent (exit_clear e) =
      moved e cleared (clear_process s) refl refl refl c.bounded (refl, (phase_facts e).1)
  RunStep-IsConsistent (tell_down e) =
      moved e backing_off (set_state down s) refl refl refl (length-set_state down s c.bounded)
        ((phase_facts e).0, refl)
  RunStep-IsConsistent (back_off d n e) =
      moved e waiting (record s { previous = next d s.previous n }) refl refl refl c.bounded
        (phase_facts e)
  RunStep-IsConsistent (wait_stop e _) = moved e leaving s refl refl refl c.bounded (phase_facts e)
  RunStep-IsConsistent (wait_over e) = moved e looping s refl refl refl c.bounded (phase_facts e)
  RunStep-IsConsistent (stop_clear e) =
      moved e stopped (clear_process s) refl refl refl c.bounded (refl, (phase_facts e).1)
  RunStep-IsConsistent (stop_down e) =
      moved e leaving (set_state down s) refl refl refl (length-set_state down s c.bounded)
        ((phase_facts e).0, refl)
  RunStep-IsConsistent (finish e) = record {
    at_phase = phase_facts e;
    bounded = c.bounded;
    closed_iff = refl;
  }

  OtherStep-IsConsistent : {t : Supervisor} → OtherStep s t → IsConsistent t
  OtherStep-IsConsistent (receive x cs e) =
      let full : length (x ∷ cs) ≤ capacity = subst (λ l. length l ≤ capacity) e c.bounded in
      record { at_phase = c.at_phase; bounded = omega (arith, full); closed_iff = c.closed_iff }
  OtherStep-IsConsistent _ = record {
    at_phase = c.at_phase;
    bounded = c.bounded;
    closed_iff = c.closed_iff;
  }

-- Between any two steps of `Run` and of the other goroutines, in any order: a process is recorded in
-- the phases from its start to `clearProcess` and in no other; the state is down in every phase
-- without a process before its `setState`, connecting or up in the select loop as the promotion says;
-- the channel of changes holds at most 16, and is closed just when `Run` has returned.
pub Reach-IsConsistent : {s : Supervisor} → Reach s → IsConsistent s
Reach-IsConsistent begins = record {
  at_phase = (refl, refl);
  bounded = omega arith;
  closed_iff = refl;
}
Reach-IsConsistent (steps r (runs x)) = RunStep-IsConsistent (Reach-IsConsistent r) x
Reach-IsConsistent (steps r (others x)) = OtherStep-IsConsistent (Reach-IsConsistent r) x
