-- ===== src/Daemon/Slots/Drained.antt =====
-- internal/daemon/proxy.go: the cap of a host's calls, and what a shutdown waits for.
-- What the stage of the shutdown says of the host.
use agterm_remote.Daemon.Slots.{
  HostCtl, Reach, Shutdown, Step, System, after_shutdown, begins, enter, enters, finish_locked,
  finishes, host_stopping, leave, leaves, max_ctl_calls, not_called, over, returns, shutdown, shuts,
  steps, too_many_calls, track, tracks, waits,
}
use agterm_remote.Prelude.{
  arith, false, if_cases, if_rule, if◌then◌else◌, inl, inr, leb, none, refl, some, subst, suc, sym,
  true, ℕ, ◌&&◌, ◌+◌, ◌-◌, ◌<◌, ◌==◌, ◌∙◌, ◌≡◌, ◌≤◌, ◌⊎◌,
}
use agterm_remote.Result.{err, ok, ok-injective}
use mathlib.Core.Bool.{false≢true}
use mathlib.Core.Option.{some-injective}

abbrev pub AtStage : Shutdown → HostCtl → Type 0
AtStage not_called h = (h.closed ≡ false) × (h.draining ≡ false) × (h.drained ≡ false)
AtStage waits h =
    (h.closed ≡ true)
    × ((h.draining ≡ true) × (h.drained ≡ false) × (0 < h.running)
        ⊎ (h.draining ≡ false) × (h.drained ≡ true) × (h.running ≡ 0))
AtStage over h = (h.closed ≡ true) × (h.draining ≡ false) × (h.running ≡ 0)

pub record IsAccounted (s : System) : Type 0 where
  pub calls_held : s.host.calls ≡ s.held
  pub running_all : s.host.running ≡ s.held + s.tracked
  pub capped : s.held ≤ max_ctl_calls
  pub staged : AtStage s.teardown s.host

-- A host that is not closed may take more in.
grown_staged :
    (d : Shutdown) (h : HostCtl) (calls running : ℕ)
    → AtStage d h
    → h.closed ≡ false
    → AtStage d (record h { calls = calls; running = running })
grown_staged not_called h n r a e = a
grown_staged waits h n r (c, _) e = absurd (false≢true (sym e ∙ c))
grown_staged over h n r (c, _, _) e = absurd (false≢true (sym e ∙ c))

enter-ok :
    (h : HostCtl) {h' : HostCtl}
    → enter h ≡ ok h'
    → (h.closed ≡ false)
      × (h.calls < max_ctl_calls)
      × ((record h { calls = suc h.calls; running = suc h.running }) ≡ h')
unfolding enter
enter-ok h {h'} e =
    let entered : HostCtl = record h { calls = suc h.calls; running = suc h.running } in
    let open_host = if leb max_ctl_calls h.calls then err too_many_calls else ok entered in
    elim (if_cases (λ x. x ≡ ok h') h.closed (err host_stopping) open_host e) [
      | inl (_, q) ↦ cc
      | inr (c, q) ↦
          elim (if_cases (λ x. x ≡ ok h') (leb max_ctl_calls h.calls) (err too_many_calls)
            (ok entered) q) [
              | inl (_, q') ↦ cc
              | inr (l, q') ↦ (c, ground (arith, l), ok-injective q')
            ]
    ]

track-some :
    (h : HostCtl) {h' : HostCtl}
    → track h ≡ some h'
    → (h.closed ≡ false) × ((record h { running = suc h.running }) ≡ h')
unfolding track
track-some h {h'} e =
    let tracked : HostCtl = record h { running = suc h.running } in
    elim (if_cases (λ x. x ≡ some h') h.closed none (some tracked) e) [
      | inl (_, q) ↦ cc
      | inr (c, q) ↦ (c, some-injective tracked h' q)
    ]

finish_locked-staged :
    (d : Shutdown) (h : HostCtl) → AtStage d h → 0 < h.running → AtStage d (finish_locked h)
unfolding finish_locked
finish_locked-staged not_called h (c, u, v) r =
    if_rule (AtStage not_called) (h.running - 1 == 0 && h.draining) _ _
      (λ e. absurd (ground (arith, e, u))) (λ _. (c, u, v))
finish_locked-staged waits h (c, inl (u, v, _)) r =
    if_rule (AtStage waits) (h.running - 1 == 0 && h.draining) _ _
      (λ e. (c, inr (refl, refl, ground (arith, e)))) (λ e. (c, inl (u, v, ground (arith, e, u))))
finish_locked-staged waits h (c, inr (u, v, z)) r = absurd (omega (arith, z, r))
finish_locked-staged over h (c, u, z) r = absurd (omega (arith, z, r))

shutdown-staged :
    (h : HostCtl) → AtStage not_called h → AtStage (after_shutdown (shutdown h)) (shutdown h)
unfolding shutdown
shutdown-staged h (c, u, v) =
    if_rule (λ x. AtStage (after_shutdown x) x) (h.running == 0) _ _
      (λ e.
        subst (λ b. AtStage (if b then waits else over) (record h { closed = true })) (sym u)
          (refl, u, ground (arith, e)))
      (λ e. (refl, inl (refl, v, ground (arith, e))))

-- A host that has ended one call or function.
finished :
    (h : HostCtl)
    → ((finish_locked h).calls ≡ h.calls) × ((finish_locked h).running ≡ h.running - 1)
unfolding finish_locked
finished h =
    if_rule (λ (x : HostCtl). (x.calls ≡ h.calls) × (x.running ≡ h.running - 1))
      (h.running - 1 == 0 && h.draining) _ _ (λ _. (refl, refl)) (λ _. (refl, refl))

shut : (h : HostCtl) → ((shutdown h).calls ≡ h.calls) × ((shutdown h).running ≡ h.running)
unfolding shutdown
shut h =
    if_rule (λ (x : HostCtl). (x.calls ≡ h.calls) × (x.running ≡ h.running)) (h.running == 0) _ _
      (λ _. (refl, refl)) (λ _. (refl, refl))

drained_over : (h : HostCtl) → AtStage waits h → h.drained ≡ true → AtStage over h
drained_over h (c, inl (_, v, _)) d = absurd (false≢true (sym v ∙ d))
drained_over h (c, inr (u, _, z)) d = (c, u, z)

-- What holds where a goroutine ends: at least one was running.
ended_staged :
    (s : System) (h : HostCtl) (n : ℕ)
    → AtStage s.teardown h
    → h.running ≡ suc n
    → AtStage s.teardown (finish_locked h)
ended_staged s h n a e = finish_locked-staged s.teardown h a (omega (arith, e))

fewer_staged :
    (d : Shutdown) (h : HostCtl) (n : ℕ) → AtStage d h → AtStage d (record h { calls = n })
fewer_staged not_called h n a = a
fewer_staged waits h n a = a
fewer_staged over h n a = a

Step-IsAccounted : {s t : System} → IsAccounted s → Step s t → IsAccounted t
Step-IsAccounted {s} c (enters h e) =
    let (o, cap, same) = enter-ok s.host e in
    subst (λ x. IsAccounted (record s { host = x; held = suc s.held })) same
      (record {
        calls_held = omega (arith, c.calls_held);
        running_all = omega (arith, c.running_all);
        capped = omega (arith, cap, c.calls_held);
        staged = grown_staged s.teardown s.host (suc s.host.calls) (suc s.host.running) c.staged o;
      })
Step-IsAccounted {s} c (tracks h e) =
    let (o, same) = track-some s.host e in
    subst (λ x. IsAccounted (record s { host = x; tracked = suc s.tracked })) same
      (record {
        calls_held = c.calls_held;
        running_all = omega (arith, c.running_all);
        capped = c.capped;
        staged = grown_staged s.teardown s.host s.host.calls (suc s.host.running) c.staged o;
      })
Step-IsAccounted {s} c (leaves n e) =
    let less = record s.host { calls = s.host.calls - 1 } in
    let (f, g) = finished less in
    record {
      calls_held = unfold leave in omega (arith, f, c.calls_held, e);
      running_all = unfold leave in omega (arith, g, c.running_all, e);
      capped = omega (arith, c.capped, e);
      staged =
          unfold leave in
          ended_staged s less (n + s.tracked)
            (fewer_staged s.teardown s.host (s.host.calls - 1) c.staged)
            (omega (arith, c.running_all, e));
    }
Step-IsAccounted {s} c (finishes n e) =
    let (f, g) = finished s.host in
    record {
      calls_held = f ∙ c.calls_held;
      running_all = omega (arith, g, c.running_all, e);
      capped = c.capped;
      staged = ended_staged s s.host (s.held + n) c.staged (omega (arith, c.running_all, e));
    }
Step-IsAccounted {s} c (shuts e) =
    let (f, g) = shut s.host in
    record {
      calls_held = f ∙ c.calls_held;
      running_all = g ∙ c.running_all;
      capped = c.capped;
      staged = shutdown-staged s.host (subst (λ d. AtStage d s.host) e c.staged);
    }
Step-IsAccounted {s} c (returns e d) =
    let stage : AtStage waits s.host = subst (λ x. AtStage x s.host) e c.staged in
    record {
      calls_held = c.calls_held;
      running_all = c.running_all;
      capped = c.capped;
      staged = drained_over s.host stage d;
    }

-- However calls, tracked functions and the one shutdown of a host interleave: the counter of calls is
-- the number of calls that hold a slot, at most 16; the counter of running goroutines is those and
-- the tracked functions; while the shutdown waits, either something runs or its channel was closed
-- with nothing left running; and once it has returned, nothing runs and the host is closed.
pub Reach-IsAccounted : {s : System} → Reach s → IsAccounted s
Reach-IsAccounted begins = record {
  calls_held = refl;
  running_all = refl;
  capped = omega arith;
  staged = (refl, refl, refl);
}
Reach-IsAccounted (steps r x) = Step-IsAccounted (Reach-IsAccounted r) x
