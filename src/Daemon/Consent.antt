-- ===== src/Daemon/Consent.antt =====
-- internal/daemon/consent.go: the dialog that asks the user before a host types into a pane. Texts of
-- a dialog are runes. What agterm, the clock and the check of the pane answer is in `Answers`.
pub mod Dialog
pub mod Allowed
mod Refused
pub mod Remembered
mod Tests
use agterm_remote.Bindings.{Grant}
use agterm_remote.Prelude.{
  Bool, List, Option, [], false, filter, if◌then◌else◌, ltb, none, not, some, true, ℕ, ◌++◌, ◌+◌,
  ◌∷◌,
}
use agterm_remote.Proxy.Authz.{Consent}
use agterm_remote.Proxy.Call.{Call}
use agterm_remote.Proxy.Policy.{CheckError}
use agterm_remote.Result.{Result, err, ok}
use agterm_remote.Text.{Bytes, bytes_eq, codes, to_lower}

unfoldable pub consent_refusal : ℕ
consent_refusal = 60000000000

pub data ConsentError : Type 0 where
  dialog_open declined_recently user_busy cannot_ask no_answer was_cancelled no_agent
        user_declined :
      ConsentError

-- The part of `hostCtl` that its consents share. A map is a list in which the first entry of a key
-- counts.
pub record Asking : Type 0 where
  pub dialog : Bool
  pub refused : List (Bytes × ℕ)

unfoldable pub refused_until : Bytes → List (Bytes × ℕ) → Option ℕ
refused_until key [] = none
refused_until key ((k, t) ∷ rest) = if bytes_eq k key then some t else refused_until key rest

unfoldable pub forget : Bytes → List (Bytes × ℕ) → List (Bytes × ℕ)
forget key l = filter (λ e. not (bytes_eq e.0 key)) l

-- The first section of `consent` under the mutex.
abbrev pub open_unless : ℕ → Bytes → Asking → Option ℕ → Result ConsentError Asking
open_unless now key s none = ok (record s { dialog = true })
open_unless now key s (some until) =
    if ltb now until
    then err declined_recently
    else ok (record s { dialog = true; refused = forget key s.refused })

unfoldable pub begin_dialog : ℕ → Bytes → Asking → Result ConsentError Asking
begin_dialog now key s =
    if s.dialog then err dialog_open else open_unless now key s (refused_until key s.refused)

-- `refuseRow`
abbrev pub refuse_row : ℕ → Bytes → Asking → Asking
refuse_row now key s = record s { refused = (key, now + consent_refusal) ∷ s.refused }

abbrev pub end_dialog : Asking → Asking
end_dialog s = record s { dialog = false }

pub data AskError : Type 0 where
  ask_pending ask_failed : AskError

-- What one read of the dialog gives: an error, no answer yet, a cancel, or the id of a button.
pub data Reading : Type 0 where
  unread undecided ask_cancelled : Reading
  answered : Bytes → Reading

-- What ends the wait after a reading that decides nothing.
pub data Wakeup : Type 0 where
  context_done timed_out poll_again : Wakeup

pub data Outcome : Type 0 where
  once pair declined timeout gone : Outcome

unfoldable pub button_once : Bytes
button_once = codes "once"

unfoldable pub button_pair : Bytes
button_pair = codes "pair"

unfoldable pub button_deny : Bytes
button_deny = codes "deny"

unfoldable pub answer_of : Bytes → Outcome
unfolding button_once button_pair
answer_of id =
    if bytes_eq id button_once then once else if bytes_eq id button_pair then pair else declined

unfoldable pub decided : Reading → Option Outcome
decided unread = none
decided undecided = none
decided ask_cancelled = some declined
decided (answered id) = some (answer_of id)

-- `await`, and whether it cancels the dialog; `none` where these rounds leave it waiting.
unfoldable pub await : List (Reading × Wakeup) → Option (Outcome × Bool)
await [] = none
await ((reading, wakeup) ∷ rounds) =
    let rest = await rounds in
    elim (decided reading) [
      | some outcome ↦ some (outcome, false)
      | none ↦ elim wakeup [
        | context_done ↦ some (gone, true)
        | timed_out ↦ some (timeout, true)
        | poll_again ↦ rest
      ]
    ]

-- What a consent meets: the time, the answer of `AskOpen`, the rounds of `await`, whether the host is
-- stopping and the time when it ends, and what `CheckAgent` and `AddGrant` then say.
pub record Answers : Type 0 where
  pub now : ℕ
  pub opened : Result AskError Bytes
  pub rounds : List (Reading × Wakeup)
  pub stopping : Bool
  pub then_now : ℕ
  pub recheck : Option CheckError
  pub stores : Bool

-- What the daemon does towards agterm and the bindings.
pub data Action : Type 0 where
  asks : Consent → Action
  notifies cancels_dialog : Action
  checks_agent : Bytes → Bytes → Action
  adds_grant drops_grant : Grant → Action
  runs : Call → Action
  notices_typed : Consent → Action

-- The actions of a consent, why the call must not run, and what is remembered.
pub record Consented : Type 0 where
  pub actions : List Action
  pub refusal : Option ConsentError
  pub asking : Asking

abbrev pub grant_of : Consent → Grant
grant_of c = record { row = c.row; pane_id = c.pane_id; kind = codes "consent" }

-- `afterAnswer`: its actions, and why not.
abbrev pub after_answer : Consent → Bool → Option CheckError → List Action × Option ConsentError
after_answer c remember (some e) = (checks_agent c.row c.pane_id ∷ [], some no_agent)
after_answer c true none = (checks_agent c.row c.pane_id ∷ adds_grant (grant_of c) ∷ [], none)
after_answer c false none = (checks_agent c.row c.pane_id ∷ [], none)

abbrev pub cancelled : Bool → List Action
cancelled true = cancels_dialog ∷ []
cancelled false = []

module _ (c : Consent) (a : Answers) (key : Bytes) (s : Asking) where
  abbrev pub allowed : Bool → Option CheckError → List Action → Consented
  allowed remember recheck done =
      let (more, refusal) = after_answer c remember recheck in
      record { actions = done ++ more; refusal = refusal; asking = end_dialog s }

  abbrev pub refused_with : ConsentError → List Action → Consented
  refused_with e done = record {
    actions = done;
    refusal = some e;
    asking = end_dialog (refuse_row a.then_now key s);
  }

  abbrev pub conclude : Outcome → List Action → Consented
  conclude once done = allowed false a.recheck done
  conclude pair done = allowed true a.recheck done
  conclude timeout done = refused_with no_answer done
  conclude gone done =
      if a.stopping
      then record { actions = done; refusal = some was_cancelled; asking = end_dialog s }
      else refused_with was_cancelled done
  conclude declined done = refused_with user_declined done

  abbrev pub after_wait : Option (Outcome × Bool) → Option Consented
  after_wait none = none
  after_wait (some (outcome, cancels)) =
      some (conclude outcome (asks c ∷ notifies ∷ cancelled cancels))

  -- After the dialog's slot is taken.
  abbrev pub after_open : Result AskError Bytes → Option Consented
  after_open (err ask_pending) =
      some (record { actions = asks c ∷ []; refusal = some user_busy; asking = end_dialog s })
  after_open (err ask_failed) =
      some (record { actions = asks c ∷ []; refusal = some cannot_ask; asking = end_dialog s })
  after_open (ok id) = after_wait (await a.rounds)

abbrev pub after_begin :
    Consent → Answers → Bytes → Asking → Result ConsentError Asking → Option Consented
after_begin c a key s (err e) = some (record { actions = []; refusal = some e; asking = s })
after_begin c a key s (ok t) = after_open c a key t a.opened

-- `consent`; `none` where the answers leave it waiting for the user.
unfoldable pub consent : Consent → Answers → Asking → Option Consented
consent c a s = let key = to_lower c.row in after_begin c a key s (begin_dialog a.now key s)
