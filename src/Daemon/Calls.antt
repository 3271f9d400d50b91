-- ===== src/Daemon/Calls.antt =====
-- internal/daemon/proxy.go: `Ctl`, one call of a host from its slot to its answer. Authorize and
-- CheckAgent are those of Proxy/Policy, and `run` is that of Daemon/Run; what the version check says is in
-- `Meets`.
mod Trace
pub mod Runs
mod Tests
use agterm_remote.Daemon.Run.{Met, Ran, RunAnswer, exits_with, is_zero, refuses, run}
use agterm_remote.Daemon.Consent.{
  Action, Answers, Asking, ConsentError, Consented, consent, drops_grant, notices_typed, runs,
}
use agterm_remote.Daemon.Slots.{HostCtl, SlotError, enter, leave}
use agterm_remote.Int.{pos, ℤ}
use agterm_remote.Prelude.{
  Bool, List, Option, [], false, if◌then◌else◌, map, none, some, true, zero, ◌&&◌, ◌++◌, ◌∷◌,
}
use agterm_remote.Proxy.Authz.{Consent, Reason, Verdict, allow, ask}
use agterm_remote.Proxy.Call.{Call}
use agterm_remote.Proxy.Normalise.{Url}
use agterm_remote.Proxy.Policy.{Request, World, authorize, check_agent}
use agterm_remote.Result.{Result, err, ok}
use agterm_remote.Text.{Bytes}

-- Why a call is refused: `agterm_too_old` stands for what the version check says.
pub data Refusal : Type 0 where
  by_slots : SlotError → Refusal
  agterm_too_old : Refusal
  by_policy : Reason → Refusal
  by_consent : ConsentError → Refusal

pub data Answer : Type 0 where
  turned_down : Refusal → Answer
  runs_to : RunAnswer → Answer

-- What a call meets: whether it already holds a slot, whether the version check lets it pass, what
-- Authorize and CheckAgent read, what a consent meets, and what `run` meets.
pub record Meets : Type 0 where
  pub admitted : Bool
  pub version_passes : Bool
  pub first_look : World
  pub second_look : World
  pub answers : Answers
  pub met : Met

-- What a call does, what its run does where it is run, its answer, and what it leaves of the dialogs.
pub record Called : Type 0 where
  pub actions : List Action
  pub ran : Option Ran
  pub answer : Answer
  pub asking : Asking

abbrev pub succeeds : RunAnswer → Bool
succeeds (refuses e) = false
succeeds (exits_with code) = is_zero code

abbrev pub notice : Option Consent → List Action
notice none = []
notice (some c) = notices_typed c ∷ []

-- The end of `Ctl`, after the actions so far: the run, and the notice of text typed under a grant.
unfoldable pub run_call : Meets → Call → Option Consent → List Action → Asking → Called
run_call m call c done s =
    let r = run m.met call in
    record {
      actions = done ++ runs call ∷ (if succeeds r.answer && call.granted then notice c else []);
      ran = some r;
      answer = runs_to r.answer;
      asking = s;
    }

abbrev pub refuse_call : Refusal → List Action → Asking → Called
refuse_call why done s = record { actions = done; ran = none; answer = turned_down why; asking = s }

abbrev pub answered_consent :
    Meets → Call → Consent → List Action → Asking → Option ConsentError → Called
answered_consent m call c done s none = run_call m call (some c) done s
answered_consent m call c done s (some e) = refuse_call (by_consent e) done s

abbrev pub after_consent : Meets → Call → Consent → List Action → Option Consented → Option Called
after_consent m call c done none = none
after_consent m call c done (some r) =
    some (answered_consent m call c (done ++ r.actions) r.asking r.refusal)

unfoldable pub on_verdict :
    List Bytes → Meets → List Action → Asking → Result Reason Verdict → Option Called
on_verdict agents m done s (err why) = some (refuse_call (by_policy why) done s)
on_verdict agents m done s (ok (allow call c)) = some (run_call m call c done s)
on_verdict agents m done s (ok (ask call c)) =
    let recheck = check_agent agents m.second_look c.row c.pane_id in
    after_consent m call c done (consent c (record m.answers { recheck = recheck }) s)

module _ (parse_url : Bytes → Option Url) (agents : List Bytes) (q : Request) (m : Meets) where
  -- `Ctl` of a call that holds a slot.
  unfoldable pub admitted_call : Asking → Option Called
  admitted_call s =
      let decision = authorize parse_url agents m.first_look q in
      if m.version_passes
      then on_verdict agents m (map drops_grant decision.dropped) s decision.verdict
      else some (refuse_call agterm_too_old [] s)

  abbrev pub with_slot : HostCtl → Asking → Result SlotError HostCtl → Option (Called × HostCtl)
  with_slot h s (err e) = some (refuse_call (by_slots e) [] s, h)
  with_slot h s (ok h') = elim (admitted_call s) [ none ↦ none | some r ↦ some (r, leave h') ]

  -- `Ctl`; `none` where it is left waiting for the user.
  unfoldable pub ctl : HostCtl → Asking → Option (Called × HostCtl)
  ctl h s =
      if m.admitted
      then elim (admitted_call s) [ none ↦ none | some r ↦ some (r, h) ]
      else with_slot h s (enter h)
