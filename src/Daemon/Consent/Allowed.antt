-- ===== src/Daemon/Consent/Allowed.antt =====
-- internal/daemon/consent.go: when a consent lets a call run.

use agterm_remote.Daemon.Consent.{
  Answers, AskError, Asking, ConsentError, Consented, Outcome, Reading, Wakeup, adds_grant,
  after_begin, after_open, after_wait, allowed, answer_of, answered, ask_cancelled, ask_failed,
  ask_pending, asks, await, begin_dialog, cancelled, checks_agent, consent, context_done,
  button_once, button_pair, decided, declined, dialog_open, end_dialog, gone, grant_of, notifies,
  once, open_unless, pair, poll_again, refused_until, refused_with, timed_out, timeout, undecided,
  unread, was_cancelled,
}
use agterm_remote.Prelude.{
  Bool, List, Option, [], arith, false, if_cases, if_rule, if◌then◌else◌, inl, inr, none, refl,
  some, ◌⊎◌, subst, sym, true, ℕ, ◌∷◌, ◌≡◌,
}
use agterm_remote.Proxy.Authz.{Consent}
use agterm_remote.Proxy.Policy.{CheckError}
use agterm_remote.Result.{Result, err, ok}
use agterm_remote.Text.{Bytes, bytes_eq, bytes_eq_iff, codes, to_lower}

-- The first reading that decides is the button of this id; each round before it found no answer, and
-- polled again.
pub data Pressed (id : Bytes) : List (Reading × Wakeup) → Type 0 where
  at_once : {w : Wakeup} {rounds : List (Reading × Wakeup)} → Pressed id ((answered id, w) ∷ rounds)
  later :
      {reading : Reading} {rounds : List (Reading × Wakeup)}
      → (reading ≡ unread) ⊎ (reading ≡ undecided)
      → Pressed id rounds
      → Pressed id ((reading, poll_again) ∷ rounds)

-- The user allowed the call, and the pane still runs an agent.

pub record IsAllowed (c : Consent) (a : Answers) (s : Asking) (r : Consented) : Type 0 where
  pub no_dialog : s.dialog ≡ false
  pub remember : Bool
  pub decision : Pressed (if remember then codes "pair" else codes "once") a.rounds
  pub checked : a.recheck ≡ none
  pub did :
      r.actions
      ≡ asks c
        ∷ notifies
        ∷ checks_agent c.row c.pane_id
        ∷ (if remember then adds_grant (grant_of c) ∷ [] else [])
  pub dialog_ended : r.asking.dialog ≡ false

-- The dialog is only begun where none is open.
begin_dialog-closed :
    (now : ℕ) (key : Bytes) (s : Asking) {t : Asking}
    → begin_dialog now key s ≡ ok t
    → s.dialog ≡ false
unfolding begin_dialog
begin_dialog-closed now key s {t} h =
    elim (if_cases (λ x. x ≡ ok t) s.dialog (err dialog_open)
      (open_unless now key s (refused_until key s.refused)) h) [ inl (_, e) ↦ cc | inr (e, _) ↦ e ]

-- An outcome that the user did not give.
abbrev pub is_abandoned : Outcome → Bool
is_abandoned timeout = true
is_abandoned gone = true
is_abandoned _ = false

answer_of-given : (id : Bytes) → is_abandoned (answer_of id) ≡ false
unfolding answer_of
answer_of-given id = ground arith

Flagged : Option (Outcome × Bool) → Type 0
Flagged none = Unit
Flagged (some (o, b)) = b ≡ is_abandoned o

-- `await` cancels a dialog exactly where it ends without the user's answer.
await-Flagged : (rounds : List (Reading × Wakeup)) → Flagged (await rounds)
unfolding await decided Flagged
await-Flagged [] = tt
await-Flagged ((ask_cancelled, wakeup) ∷ rounds) = refl
await-Flagged ((answered id, wakeup) ∷ rounds) = sym (answer_of-given id)
await-Flagged ((unread, context_done) ∷ rounds) = refl
await-Flagged ((unread, timed_out) ∷ rounds) = refl
await-Flagged ((unread, poll_again) ∷ rounds) = await-Flagged rounds
await-Flagged ((undecided, context_done) ∷ rounds) = refl
await-Flagged ((undecided, timed_out) ∷ rounds) = refl
await-Flagged ((undecided, poll_again) ∷ rounds) = await-Flagged rounds

-- The outcomes that the user gives by a button, and the other ones.
Chosen : List (Reading × Wakeup) → Outcome → Type 0
Chosen rounds once = Pressed (codes "once") rounds
Chosen rounds pair = Pressed (codes "pair") rounds
Chosen rounds _ = Unit

pressed_now :
    (id word : Bytes) (w : Wakeup) (rounds : List (Reading × Wakeup))
    → bytes_eq id word ≡ true
    → Pressed word ((answered id, w) ∷ rounds)
pressed_now id word w rounds e =
    subst (λ x. Pressed word ((answered x, w) ∷ rounds)) (sym ((bytes_eq_iff id word).0 e)) at_once

answer_of-Chosen :
    (id : Bytes) (w : Wakeup) (rounds : List (Reading × Wakeup))
    → Chosen ((answered id, w) ∷ rounds) (answer_of id)
unfolding answer_of button_once button_pair Chosen
answer_of-Chosen id w rounds =
    if_rule (Chosen ((answered id, w) ∷ rounds)) (bytes_eq id button_once) once
      (if bytes_eq id button_pair then pair else declined)
      (λ e. pressed_now id button_once w rounds e)
      (λ _.
        if_rule (Chosen ((answered id, w) ∷ rounds)) (bytes_eq id button_pair) pair declined
          (λ e. pressed_now id button_pair w rounds e) (λ _. tt))

ChosenOf : List (Reading × Wakeup) → Option (Outcome × Bool) → Type 0
ChosenOf rounds none = Unit
ChosenOf rounds (some (o, b)) = Chosen rounds o

Chosen-later :
    (reading : Reading) (rounds : List (Reading × Wakeup)) (o : Option (Outcome × Bool))
    → (reading ≡ unread) ⊎ (reading ≡ undecided)
    → ChosenOf rounds o
    → ChosenOf ((reading, poll_again) ∷ rounds) o
unfolding Chosen ChosenOf
Chosen-later reading rounds none r c = tt
Chosen-later reading rounds (some (once, b)) r c = later r c
Chosen-later reading rounds (some (pair, b)) r c = later r c
Chosen-later reading rounds (some (declined, b)) r c = tt
Chosen-later reading rounds (some (timeout, b)) r c = tt
Chosen-later reading rounds (some (gone, b)) r c = tt

await-Chosen : (rounds : List (Reading × Wakeup)) → ChosenOf rounds (await rounds)
unfolding await decided Chosen ChosenOf
await-Chosen [] = tt
await-Chosen ((ask_cancelled, wakeup) ∷ rounds) = tt
await-Chosen ((answered id, wakeup) ∷ rounds) = answer_of-Chosen id wakeup rounds
await-Chosen ((unread, context_done) ∷ rounds) = tt
await-Chosen ((unread, timed_out) ∷ rounds) = tt
await-Chosen ((unread, poll_again) ∷ rounds) =
    Chosen-later unread rounds (await rounds) (inl refl) (await-Chosen rounds)
await-Chosen ((undecided, context_done) ∷ rounds) = tt
await-Chosen ((undecided, timed_out) ∷ rounds) = tt
await-Chosen ((undecided, poll_again) ∷ rounds) =
    Chosen-later undecided rounds (await rounds) (inr refl) (await-Chosen rounds)

-- What holds of the result, where there is one.
abbrev pub Each : {A : Type 0} (P : A → Type 0) → Option A → Type 0
Each P none = Unit
Each P (some r) = P r

pub Each-some : {A : Type 0} (P : A → Type 0) {o : Option A} {r : A} → Each P o → o ≡ some r → P r
Each-some P x e = subst (Each P) e x

module _ (c : Consent) (a : Answers) (key : Bytes) (s t : Asking) where
  abbrev Right : Consented → Type 0
  Right r = r.refusal ≡ none → IsAllowed c a s r

  allowed-Right :
      (remember : Bool) (check : Option CheckError) (b : Bool)
      → s.dialog ≡ false
      → Pressed (if remember then codes "pair" else codes "once") a.rounds
      → b ≡ false
      → a.recheck ≡ check
      → Right (allowed c a key t remember check (asks c ∷ notifies ∷ cancelled b))
  allowed-Right remember (some x) b d w f e h = cc
  allowed-Right true none b d w f e h = record {
    no_dialog = d;
    remember = true;
    decision = w;
    checked = e;
    did = rw f refl;
    dialog_ended = refl;
  }
  allowed-Right false none b d w f e h = record {
    no_dialog = d;
    remember = false;
    decision = w;
    checked = e;
    did = rw f refl;
    dialog_ended = refl;
  }

  after_wait-Right :
      (o : Option (Outcome × Bool))
      → s.dialog ≡ false
      → ChosenOf a.rounds o
      → Flagged o
      → Each Right (after_wait c a key t o)
  unfolding Flagged Chosen ChosenOf
  after_wait-Right none d w f = tt
  after_wait-Right (some (once, b)) d w f = allowed-Right false a.recheck b d w f refl
  after_wait-Right (some (pair, b)) d w f = allowed-Right true a.recheck b d w f refl
  after_wait-Right (some (timeout, b)) d w f = λ h. cc
  after_wait-Right (some (gone, b)) d w f =
      if_rule Right a.stopping
        (record {
          actions = asks c ∷ notifies ∷ cancelled b;
          refusal = some was_cancelled;
          asking = end_dialog t;
        })
        (refused_with c a key t was_cancelled (asks c ∷ notifies ∷ cancelled b)) (λ _ h. cc)
        (λ _ h. cc)
  after_wait-Right (some (declined, b)) d w f = λ h. cc

  after_open-Right :
      (o : Result AskError Bytes) → s.dialog ≡ false → Each Right (after_open c a key t o)
  after_open-Right (err ask_pending) d = λ h. cc
  after_open-Right (err ask_failed) d = λ h. cc
  after_open-Right (ok id) d =
      after_wait-Right (await a.rounds) d (await-Chosen a.rounds) (await-Flagged a.rounds)

consent-Right :
    (c : Consent) (a : Answers) (s : Asking) (o : Result ConsentError Asking)
    → begin_dialog a.now (to_lower c.row) s ≡ o
    → Each (Right c a (to_lower c.row) s s) (after_begin c a (to_lower c.row) s o)
consent-Right c a s (err e) b = λ h. cc
consent-Right c a s (ok t) b =
    after_open-Right c a (to_lower c.row) s t a.opened
      (begin_dialog-closed a.now (to_lower c.row) s b)

-- A consent lets a call run only where no dialog of the host was open, the first answer that was read
-- is the button "once" ("Allow once") or "pair", with no answer in any reading before it, and the check of
-- the pane that followed the answer passed; a grant is added exactly for "pair", and the dialog is closed.
pub consent-IsAllowed :
    (c : Consent) (a : Answers) (s : Asking) {r : Consented}
    → consent c a s ≡ some r
    → r.refusal ≡ none
    → IsAllowed c a s r
unfolding consent
consent-IsAllowed c a s e =
    Each-some (Right c a (to_lower c.row) s s)
      (consent-Right c a s (begin_dialog a.now (to_lower c.row) s) refl) e
