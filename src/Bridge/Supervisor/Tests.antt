-- ===== src/Bridge/Supervisor/Tests.antt =====
-- Tests of the supervisor, and its theorems at concrete executions.
use agterm_remote.Bridge.Backoff.{next}
use agterm_remote.Bridge.Supervisor.{
  Reach, RunStep, Supervisor, at, back_off, begins, clear_process, connecting, context_ends, down,
  exit_clear, finish, initial, leaving, loop_start, looping, mark_sees, mark_sends, others, promote,
  returned, runs, see_alive, see_exit, see_stop, set_state, start_works, started, state_eq, steps,
  stop_clear, stop_down, stopped, stopping_process, tell_connecting, tell_down, up, wait_over,
  watching,
}
use agterm_remote.Bridge.Supervisor.Consistent.{IsConsistent, Reach-IsConsistent}
use agterm_remote.Bridge.Supervisor.Edges.{Quiet, Step-Edge, Told}
use agterm_remote.Bridge.Supervisor.Ssh.{
  Tunnel, batch_options, reclaim_argv, reclaim_command, shell_quote,
}
use agterm_remote.Bridge.Supervisor.Stops.{Execution, HasReturned, by_run, ends, stopping-returns}
use agterm_remote.Prelude.{[], false, refl, true, ◌∷◌, ◌≡◌, ◌≤◌, ◌⊎◌}
use agterm_remote.Quote.{escape_quotes}
use agterm_remote.Text.{Bytes, codes}

abbrev tunnel : Tunnel
tunnel = record {
  host = codes "me@box";
  remote_sock = codes "/tmp/a'b.sock";
  local_sock = codes "/run/x.sock";
  ssh_path = codes "/usr/bin/ssh";
  log_path = codes "/run/bridge-k.log";
}

abbrev old_log : Bytes
old_log = codes "Connection closed."

reclaim_argv_test :
    reclaim_argv tunnel
    ≡ codes "/usr/bin/ssh"
      ∷ codes "-o"
      ∷ codes "BatchMode=yes"
      ∷ codes "-o"
      ∷ codes "ControlMaster=no"
      ∷ codes "-o"
      ∷ codes "ControlPath=none"
      ∷ codes "-o"
      ∷ codes "ConnectTimeout=10"
      ∷ codes "me@box"
      ∷ codes "--"
      ∷ codes "rm -f -- '/tmp/a'\\''b.sock'"
      ∷ []
unfolding reclaim_argv batch_options reclaim_command shell_quote escape_quotes
reclaim_argv_test = refl

-- A process started, a mark of it, and the promotion.
abbrev begun : Supervisor
begun = at started (record initial { process = true })

begun-Reach : Reach begun
begun-Reach = steps (steps begins (runs (loop_start refl refl))) (runs (start_works refl))

abbrev told_connecting : Supervisor
told_connecting = at (watching false) (record (set_state connecting begun) { timer = true })

abbrev marked : Supervisor
marked = record told_connecting { marking = 0; alive = true }

marked-Reach : Reach marked
marked-Reach =
    steps (steps (steps begun-Reach (runs (tell_connecting refl))) (others (mark_sees refl)))
      (others (mark_sends 0 refl))

abbrev promoted : Supervisor
promoted = at (watching true) (set_state up (record marked { alive = false }))

changes_test : promoted.changes ≡ connecting ∷ up ∷ []
unfolding state_eq
changes_test = refl

Reach-IsConsistent_example : IsConsistent marked
Reach-IsConsistent_example = Reach-IsConsistent marked-Reach

Step-Edge_example : Quiet marked promoted ⊎ Told marked promoted
Step-Edge_example = Step-Edge marked-Reach (runs (see_alive false refl refl))

-- The context ends, and the promoted process is stopped.
abbrev ended : Supervisor
ended = record marked { canceled = true }

ended-Reach : Reach ended
ended-Reach = steps marked-Reach (others context_ends)

abbrev killed : Supervisor
killed = at stopping_process (record ended { timer = false })

abbrev over : Supervisor
over =
    at returned
      (record (at leaving (set_state down (at stopped (clear_process killed)))) { closed = true })

stopped-Execution : Execution ended 4 0 over
stopped-Execution =
    by_run
      (by_run (by_run (by_run ends (see_stop false refl refl)) (stop_clear refl)) (stop_down refl))
      (finish refl)

stopping-returns_example : (4 ≤ 12) × (HasReturned over ⊎ ((u : Supervisor) × RunStep over u))
stopping-returns_example = stopping-returns ended-Reach refl stopped-Execution

-- A mark that a process's exit overtakes stays in the channel, and promotes the next process.
abbrev lost : Supervisor
lost =
    at looping
      (record (set_state down (clear_process marked)) { timer = false; previous = next 0 0 0 })

lost-Reach : Reach lost
lost-Reach =
    steps
      (steps
        (steps (steps (steps marked-Reach (runs (see_exit false refl))) (runs (exit_clear refl)))
          (runs (tell_down refl)))
        (runs (back_off 0 0 refl)))
      (runs (wait_over refl))

abbrev again : Supervisor
again =
    at (watching false)
      (record (set_state connecting (record lost { process = true })) { timer = true })

again-Reach : Reach again
again-Reach =
    steps (steps (steps lost-Reach (runs (loop_start refl refl))) (runs (start_works refl)))
      (runs (tell_connecting refl))

stale_mark_test : RunStep again (promote false (record again { alive = false }))
stale_mark_test = see_alive false refl refl
