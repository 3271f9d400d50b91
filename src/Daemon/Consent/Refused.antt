-- ===== src/Daemon/Consent/Refused.antt =====
-- internal/daemon/consent.go: what a consent that was refused leaves.
use agterm_remote.Daemon.Consent.{
  Action, Answers, AskError, Asking, ConsentError, Consented, Outcome, after_begin, after_open,
  after_wait, allowed, ask_failed, ask_pending, asks, await, begin_dialog, cancelled, conclude,
  consent, declined, declined_recently, dialog_open, end_dialog, forget, gone, no_answer, notifies,
  once, open_unless, pair, refuse_row, refused_until, refused_with, timeout, user_declined,
  was_cancelled,
}
use agterm_remote.Daemon.Consent.Allowed.{Each}
use agterm_remote.Prelude.{
  Bool, List, Option, ap, arith, false, if_cases, if_rule, inl, inr, ltb, none, not, refl, some,
  sym, true, ℕ, ◌∙◌, ◌∷◌, ◌≡◌,
}
use agterm_remote.Proxy.Authz.{Consent}
use agterm_remote.Proxy.Policy.{CheckError}
use agterm_remote.Result.{Result, err, err-injective, ok}
use agterm_remote.Text.{Bytes, to_lower}
use mathlib.Core.Bool.{false≢true}

-- Why a call is refused that leaves its row refused for a while.
abbrev pub is_remembered : Answers → Option ConsentError → Bool
is_remembered a (some no_answer) = true
is_remembered a (some user_declined) = true
is_remembered a (some was_cancelled) = not a.stopping
is_remembered a _ = false

-- The row's refusal stands in what is left.
abbrev pub Kept : Answers → Bytes → Consented → Type 0
Kept a key r =
    is_remembered a r.refusal ≡ true
    → (t : Asking) × (r.asking ≡ end_dialog (refuse_row a.then_now key t))

module _ (c : Consent) (a : Answers) (key : Bytes) (t : Asking) where
  allowed-Kept :
      (remember : Bool) (check : Option CheckError) (done : List Action)
      → Kept a key (allowed c a key t remember check done)
  allowed-Kept true none done h = absurd (false≢true h)
  allowed-Kept false none done h = absurd (false≢true h)
  allowed-Kept remember (some x) done h = absurd (false≢true h)

  gone-Kept : (done : List Action) → Kept a key (conclude c a key t gone done)
  gone-Kept done =
      if_rule (Kept a key) a.stopping
        (record { actions = done; refusal = some was_cancelled; asking = end_dialog t })
        (refused_with c a key t was_cancelled done) (λ e h. absurd (ground (arith, e, h)))
        (λ _ h. (t, refl))

  after_wait-Kept : (o : Option (Outcome × Bool)) → Each (Kept a key) (after_wait c a key t o)
  after_wait-Kept none = tt
  after_wait-Kept (some (once, b)) = allowed-Kept false a.recheck (asks c ∷ notifies ∷ cancelled b)
  after_wait-Kept (some (pair, b)) = allowed-Kept true a.recheck (asks c ∷ notifies ∷ cancelled b)
  after_wait-Kept (some (timeout, b)) = λ h. (t, refl)
  after_wait-Kept (some (gone, b)) = gone-Kept (asks c ∷ notifies ∷ cancelled b)
  after_wait-Kept (some (declined, b)) = λ h. (t, refl)

  after_open-Kept : (o : Result AskError Bytes) → Each (Kept a key) (after_open c a key t o)
  after_open-Kept (err ask_pending) = λ h. absurd (false≢true h)
  after_open-Kept (err ask_failed) = λ h. absurd (false≢true h)
  after_open-Kept (ok id) = after_wait-Kept (await a.rounds)

open_unless-err :
    (a : Answers) (key : Bytes) (s : Asking) (o : Option ℕ) {e : ConsentError}
    → open_unless a.now key s o ≡ err e
    → is_remembered a (some e) ≡ false
open_unless-err a key s none h = cc
open_unless-err a key s (some until) {e} h =
    elim (if_cases (λ x. x ≡ err e) (ltb a.now until) (err declined_recently)
      (ok (record s { dialog = true; refused = forget key s.refused })) h) [
        | inl (_, q) ↦ ap (λ x. is_remembered a (some x)) (sym (err-injective q))
        | inr (_, q) ↦ cc
      ]

-- The first section of `consent` only refuses for a dialog or a remembered refusal.
begin_dialog-err :
    (a : Answers) (key : Bytes) (s : Asking) {e : ConsentError}
    → begin_dialog a.now key s ≡ err e
    → is_remembered a (some e) ≡ false
unfolding begin_dialog
begin_dialog-err a key s {e} h =
    let unrefused = open_unless a.now key s (refused_until key s.refused) in
    elim (if_cases (λ x. x ≡ err e) s.dialog (err dialog_open) unrefused h) [
      | inl (_, q) ↦ ap (λ x. is_remembered a (some x)) (sym (err-injective q))
      | inr (_, q) ↦ open_unless-err a key s (refused_until key s.refused) q
    ]

after_begin-Kept :
    (c : Consent) (a : Answers) (s : Asking) (o : Result ConsentError Asking)
    → begin_dialog a.now (to_lower c.row) s ≡ o
    → Each (Kept a (to_lower c.row)) (after_begin c a (to_lower c.row) s o)
after_begin-Kept c a s (ok t) b = after_open-Kept c a (to_lower c.row) t a.opened
after_begin-Kept c a s (err e) b =
    λ h. absurd (false≢true (sym (begin_dialog-err a (to_lower c.row) s b) ∙ h))

pub consent-Kept :
    (c : Consent) (a : Answers) (s : Asking) → Each (Kept a (to_lower c.row)) (consent c a s)
unfolding consent
consent-Kept c a s = after_begin-Kept c a s (begin_dialog a.now (to_lower c.row) s) refl
