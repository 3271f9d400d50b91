-- ===== src/Daemon/Slots.antt =====
-- internal/daemon/proxy.go: the accounting of a host's calls. Each function holds the mutex, so it is
-- one step.
mod Drained
mod Tests
use agterm_remote.Prelude.{
  Bool, Option, false, if◌then◌else◌, leb, none, some, suc, true, ℕ, ◌&&◌, ◌-◌, ◌==◌, ◌≡◌,
}
use agterm_remote.Result.{Result, err, ok}

pub data SlotError : Type 0 where
  host_stopping too_many_calls : SlotError

abbrev pub max_ctl_calls : ℕ
max_ctl_calls = 16

-- `draining`: the channel that `shutdown` waits for is there; `drained`: it was closed.
pub record HostCtl : Type 0 where
  pub calls : ℕ
  pub running : ℕ
  pub closed : Bool
  pub draining : Bool
  pub drained : Bool

abbrev pub new_host : HostCtl
new_host = record { calls = 0; running = 0; closed = false; draining = false; drained = false }

unfoldable pub enter : HostCtl → Result SlotError HostCtl
enter h =
    if h.closed
    then err host_stopping
    else if leb max_ctl_calls h.calls
    then err too_many_calls
    else ok (record h { calls = suc h.calls; running = suc h.running })

unfoldable pub finish_locked : HostCtl → HostCtl
finish_locked h =
    let rest = h.running - 1 in
    if rest == 0 && h.draining
    then record h { running = rest; draining = false; drained = true }
    else record h { running = rest }

unfoldable pub leave : HostCtl → HostCtl
leave h = finish_locked (record h { calls = h.calls - 1 })

-- The part of `track` before its goroutine; `none` where it reports false.
unfoldable pub track : HostCtl → Option HostCtl
track h = if h.closed then none else some (record h { running = suc h.running })

-- The part of `shutdown` before it waits.
unfoldable pub shutdown : HostCtl → HostCtl
shutdown h =
    if h.running == 0
    then record h { closed = true }
    else record h { closed = true; draining = true }

-- The one goroutine that calls `shutdown`.
pub data Shutdown : Type 0 where
  not_called waits over : Shutdown

-- The host with the goroutines at work: calls that hold a slot, and tracked functions.
pub record System : Type 0 where
  pub host : HostCtl
  pub held : ℕ
  pub tracked : ℕ
  pub teardown : Shutdown

abbrev pub after_shutdown : HostCtl → Shutdown
after_shutdown h = if h.draining then waits else over

pub data Step (s : System) : System → Type 0 where
  enters : (h : HostCtl) → enter s.host ≡ ok h → Step s (record s { host = h; held = suc s.held })
  leaves : (n : ℕ) → s.held ≡ suc n → Step s (record s { host = leave s.host; held = n })
  tracks :
      (h : HostCtl)
      → track s.host ≡ some h
      → Step s (record s { host = h; tracked = suc s.tracked })
  finishes :
      (n : ℕ) → s.tracked ≡ suc n → Step s (record s { host = finish_locked s.host; tracked = n })
  shuts :
      s.teardown ≡ not_called
      → Step s (record s { host = shutdown s.host; teardown = after_shutdown (shutdown s.host) })
  returns : s.teardown ≡ waits → s.host.drained ≡ true → Step s (record s { teardown = over })

abbrev pub initial : System
initial = record { host = new_host; held = 0; tracked = 0; teardown = not_called }

pub data Reach : System → Type 0 where
  begins : Reach initial
  steps : {s t : System} → Reach s → Step s t → Reach t
