-- ===== src/Daemon/Calls/Runs.antt =====
-- internal/daemon/proxy.go: which calls run.
use agterm_remote.Daemon.Run.Outcomes.{RunOf}
use agterm_remote.Daemon.Run.{Ran}
use agterm_remote.Daemon.Calls.{Called, runs_to, Meets, Refusal, turned_down}
use agterm_remote.Daemon.Calls.Trace.{runs_of}
use agterm_remote.Daemon.Consent.{Asking, Consented}
use agterm_remote.Daemon.Consent.Allowed.{IsAllowed}
use agterm_remote.Daemon.Slots.{HostCtl}
use agterm_remote.Prelude.{List, Option, [], none, some, ◌∷◌, ◌≡◌}
use agterm_remote.Proxy.Authz.{Consent, Reason, Verdict, allow, ask}
use agterm_remote.Proxy.Call.{Call}
use agterm_remote.Proxy.Normalise.{Url}
use agterm_remote.Proxy.Policy.{Request, authorize, check_agent}
use agterm_remote.Proxy.Policy.Agent.{AgentRuns}
use agterm_remote.Proxy.Policy.Authorized.{Authorized}
use agterm_remote.Result.{Result, ok}
use agterm_remote.Text.{Bytes}

-- What allows a call to run: the policy alone, or the policy and the user, with the pane checked again.
pub data Permitted (agents : List Bytes) (m : Meets) (s : Asking) (call : Call)
    : Verdict → Type 0 where
  by_policy_alone : (c : Option Consent) → Permitted agents m s call (allow call c)
  by_user :
      (c : Consent) (r : Consented)
      → IsAllowed c
          (record m.answers { recheck = check_agent agents m.second_look c.row c.pane_id })
          s
          r
      → AgentRuns agents m.second_look c.row c.pane_id
      → Permitted agents m s call (ask call c)

module _ (agents : List Bytes) (m : Meets) (s : Asking) where
  -- A call that ran nothing and was refused, or that was run once, as the verdict permits.
  pub data Ended (r : Called) (v : Result Reason Verdict) : Type 0 where
    turned_away :
        (why : Refusal)
        → r.answer ≡ turned_down why
        → runs_of r.actions ≡ []
        → r.ran ≡ none
        → Ended r v
    ran :
        (call : Call) (w : Verdict)
        → v ≡ ok w
        → Permitted agents m s call w
        → runs_of r.actions ≡ call ∷ []
        → (x : Ran) → r.ran ≡ some x
        → RunOf m.met call x
        → r.answer ≡ runs_to x.answer
        → Ended r v

module _ (parse_url : Bytes → Option Url) (agents : List Bytes) (q : Request) (m : Meets) where
  abbrev Verdicted : Asking → Called → Type 0
  Verdicted s r = Ended agents m s r (authorize parse_url agents m.first_look q).verdict

  abbrev Answered : Asking → Called × HostCtl → Type 0
  Answered s out = Verdicted s out.0

  -- How a call ends: refused, with nothing run; or run once, with the answer of the run, for a verdict
  -- which the policy gives and, where it asks for consent, the user.
  pub data Ending (s : Asking) (r : Called) : Type 0 where
    refusal :
        (why : Refusal)
        → r.answer ≡ turned_down why
        → runs_of r.actions ≡ []
        → r.ran ≡ none
        → Ending s r
    entered :
        (call : Call) (w : Verdict)
        → Authorized parse_url agents m.first_look q w
        → Permitted agents m s call w
        → runs_of r.actions ≡ call ∷ []
        → (x : Ran) → r.ran ≡ some x
        → RunOf m.met call x
        → r.answer ≡ runs_to x.answer
        → Ending s r
