-- ===== src/Daemon/Slots/Tests.antt =====
-- Tests of the slots of a host, and their theorem at a concrete history.
-- A host whose slots are all taken.
use agterm_remote.Daemon.Slots.{
  HostCtl, Reach, System, begins, enter, enters, finish_locked, finishes, host_stopping, leave,
  leaves, new_host, not_called, over, returns, shutdown, shuts, steps, too_many_calls, track,
  tracks, waits,
}
use agterm_remote.Daemon.Slots.Drained.{IsAccounted, Reach-IsAccounted}
use agterm_remote.Prelude.{false, refl, true, ◌≡◌}
use agterm_remote.Result.{err}

abbrev full_host : HostCtl
full_host = record new_host { calls = 16; running = 16 }

enter_test :
    (enter full_host ≡ err too_many_calls)
    × (enter (record new_host { closed = true }) ≡ err host_stopping)
unfolding enter
enter_test = (refl, refl)

-- A tracked function outlives its call; the shutdown waits for both.
abbrev busy : System
busy = record {
  host = record new_host { calls = 1; running = 2 };
  held = 1;
  tracked = 1;
  teardown = not_called;
}

abbrev stopping_system : System
stopping_system = record busy {
  host = record busy.host { closed = true; draining = true };
  teardown = waits;
}

busy-Reach : Reach busy
unfolding enter track
busy-Reach =
    steps (steps begins (enters (record new_host { calls = 1; running = 1 }) refl))
      (tracks (record new_host { calls = 1; running = 2 }) refl)

stopping-Reach : Reach stopping_system
unfolding shutdown
stopping-Reach = steps busy-Reach (shuts refl)

abbrev drained_host : System
drained_host = record {
  host = record { calls = 0; running = 0; closed = true; draining = false; drained = true };
  held = 0;
  tracked = 0;
  teardown = over;
}

drained-Reach : Reach drained_host
unfolding leave finish_locked
drained-Reach =
    steps (steps (steps stopping-Reach (leaves 0 refl)) (finishes 0 refl)) (returns refl refl)

Reach-IsAccounted_example : IsAccounted drained_host
Reach-IsAccounted_example = Reach-IsAccounted drained-Reach
