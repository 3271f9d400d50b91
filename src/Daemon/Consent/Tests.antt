-- ===== src/Daemon/Consent/Tests.antt =====
-- Tests of the consent dialog, and its theorems at concrete dialogs.

use agterm_remote.Daemon.Consent.{
  Answers, Asking, Consented, adds_grant, answer_of, answered, asks, await, begin_dialog,
  button_once, button_pair, cannot_ask, checks_agent, consent, consent_refusal, decided,
  declined_recently, grant_of, notifies, poll_again, refused_until, timed_out, timeout, undecided,
  unread,
}
use agterm_remote.Daemon.Consent.Allowed.{IsAllowed, consent-IsAllowed}
use agterm_remote.Daemon.Consent.Dialog.{
  close_text, dialog_for, escaped, hex_from, upper_hex, visible,
}
use agterm_remote.Daemon.Consent.Dialog.Escaped.{all_shown, dialog_for_shown}
use agterm_remote.Daemon.Consent.Remembered.{consent_remembered}
use agterm_remote.Prelude.{
  List, Option, [], all, arith, false, none, refl, some, true, ◌++◌, ◌∷◌, ◌≡◌,
}
use agterm_remote.Proxy.Authz.{Consent}
use agterm_remote.Proxy.Typed.{in_ranges, is_control, is_format}
use agterm_remote.Result.{ok}
use agterm_remote.Text.{Bytes, bytes_eq, codes}

abbrev question : Consent
question = record {
  row = codes "R1";
  row_name = codes "api";
  pane_id = codes "p2";
  text = codes "hi";
  preview = codes "hi";
}

abbrev fresh : Asking
fresh = record { dialog = false; refused = [] }

-- The dialog is answered the second time it is read.
abbrev answers_with : Bytes → Answers
answers_with button = record {
  now = 0;
  opened = ok (codes "ask-1");
  rounds = (unread, poll_again) ∷ (answered button, poll_again) ∷ [];
  stopping = false;
  then_now = 5;
  recheck = none;
  stores = true;
}

abbrev no_result : Consented
no_result = record { actions = []; refusal = some cannot_ask; asking = fresh }

abbrev result_of : Option Consented → Consented
result_of none = no_result
result_of (some r) = r

abbrev result : Bytes → Consented
result button = result_of (consent question (answers_with button) fresh)

pair_test :
    (result (codes "pair")).actions
    ≡ asks question
      ∷ notifies
      ∷ checks_agent (codes "R1") (codes "p2")
      ∷ adds_grant (grant_of question)
      ∷ []
unfolding consent begin_dialog refused_until await decided answer_of button_once button_pair
    bytes_eq
pair_test = refl

-- A dialog that times out is cancelled.
timeout_test : await ((undecided, poll_again) ∷ (unread, timed_out) ∷ []) ≡ some (timeout, true)
unfolding await decided
timeout_test = refl

consent-IsAllowed_example :
    IsAllowed question (answers_with (codes "once")) fresh (result (codes "once"))
unfolding consent begin_dialog refused_until await decided answer_of button_once button_pair
    bytes_eq
consent-IsAllowed_example = consent-IsAllowed question (answers_with (codes "once")) fresh refl refl

-- Asked again 59 seconds after the user declined.
abbrev asked_again : Answers
asked_again = record (answers_with (codes "once")) { now = 59000000005 }

-- A consent for another row that times out in between.
abbrev other_asked : Answers
other_asked = record (answers_with (codes "once")) {
  now = 10;
  rounds = (undecided, timed_out) ∷ [];
  then_now = 20;
}

abbrev in_between : List (Consent × Answers)
in_between = (record question { row = codes "R2" }, other_asked) ∷ []

abbrev left_between : Asking
left_between = record {
  dialog = false;
  refused = (codes "r2", 60000000020) ∷ (codes "r1", 60000000005) ∷ [];
}

consent_remembered_example :
    consent (record question { row = codes "r1" }) asked_again left_between
    ≡ some (record { actions = []; refusal = some declined_recently; asking = left_between })
unfolding consent begin_dialog refused_until await decided answer_of button_once button_pair
    bytes_eq consent_refusal
consent_remembered_example =
    consent_remembered question (record question { row = codes "r1" }) (answers_with (codes "deny"))
      asked_again fresh in_between refl refl (omega arith, tt) refl refl (omega arith)

-- A right-to-left override in a row's name is escaped.
visible_test : visible (codes "a" ++ 0x202e ∷ codes "b") ≡ codes "a\\u{202E}b"
unfolding visible escaped hex_from upper_hex is_control is_format in_ranges
visible_test = refl

-- A closing bracket in the typed text is shown as it is.
bracket_test :
    visible (codes "hi" ++ close_text ∷ codes " (trusted)")
    ≡ codes "hi" ++ close_text ∷ codes " (trusted)"
unfolding visible is_control is_format in_ranges
bracket_test = refl

dialog_for_shown_example :
    let d =
      dialog_for
        (codes "api")
        (codes "dev")
        (0x200b ∷ codes "web")
        (codes "hi")
        (codes "R1")
        (codes "p2") in
    (all_shown d.title ≡ true)
    × (all_shown d.message ≡ true)
    × (all (λ b. all_shown b.label) d.buttons ≡ true)
dialog_for_shown_example =
    dialog_for_shown (codes "api") (codes "dev") (0x200b ∷ codes "web") (codes "hi") (codes "R1")
      (codes "p2")
