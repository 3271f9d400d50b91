-- ===== src/Daemon/Consent/Remembered.antt =====
-- internal/daemon/consent.go: how long a refusal is remembered.
use agterm_remote.Daemon.Consent.Refused.{Kept, consent-Kept, is_remembered}
use agterm_remote.Daemon.Consent.{
  Action, Answers, AskError, Asking, ConsentError, Consented, Outcome, after_begin, after_open,
  after_wait, allowed, ask_failed, ask_pending, asks, await, begin_dialog, cancelled, consent,
  consent_refusal, declined, declined_recently, end_dialog, forget, gone, notifies, once,
  open_unless, pair, refuse_row, refused_until, refused_with, timeout, was_cancelled,
}
use agterm_remote.Daemon.Consent.Allowed.{Each, Each-some}
use agterm_remote.Prelude.{
  All, Bool, Bool-cases, List, Option, [], not-false, subst, if◌then◌else◌, ap, arith, false,
  if_cases, if_rule, inl, inr, ltb, none, not, refl, some, sym, true, ℕ, ◌+◌, ◌<◌, ◌∙◌, ◌∷◌, ◌≡◌,
}
use agterm_remote.Proxy.Authz.{Consent}
use agterm_remote.Proxy.Policy.{CheckError}
use agterm_remote.Result.{Result, err, ok, ok-injective}
use agterm_remote.Text.{bytes_eq-apart, Bytes, bytes_eq, bytes_eq_iff, bytes_eq_refl, to_lower}
use mathlib.Core.Option.{some-injective}

-- The consents of a host, one after the other, up to what is left of the dialogs.
abbrev pub consents : List (Consent × Answers) → Asking → Option Asking
consents [] s = some s
consents ((c, a) ∷ rest) s = elim (consent c a s) [ none ↦ none | some r ↦ consents rest r.asking ]

-- No dialog is open, and the row is refused until then at least.
pub record IsRefused (key : Bytes) (until : ℕ) (s : Asking) : Type 0 where
  pub closed : s.dialog ≡ false
  pub listed : refused_until key s.refused ≡ some until

forget-other :
    (key other : Bytes) (l : List (Bytes × ℕ))
    → bytes_eq key other ≡ false
    → refused_until key (forget other l) ≡ refused_until key l
unfolding refused_until forget
forget-other key other [] n = refl
forget-other key other ((k, t) ∷ l) n =
    if_rule
      (λ (x : List (Bytes × ℕ)).
        refused_until key x ≡ (if bytes_eq k key then some t else refused_until key l))
      (not (bytes_eq k other)) _ _ (λ _. rw (forget-other key other l n))
      (λ e.
        let same : k ≡ other = (bytes_eq_iff k other).0 (not-false (bytes_eq k other) e) in
        let apart : bytes_eq k key ≡ false = rw same (bytes_eq-apart key other n) in
        rw apart (forget-other key other l n))

-- A row that is refused stays refused through a consent that begins in time.
module _ (c : Consent) (a : Answers) (key other : Bytes) (until : ℕ) where
  -- The part of a consent behind its dialog's slot, for another row.
  abbrev Still : Consented → Type 0
  Still r = IsRefused key until r.asking

  module _ (t : Asking) (listed : refused_until key t.refused ≡ some until)
      (apart : bytes_eq other key ≡ false) where
    ended : IsRefused key until (end_dialog t)
    ended = record { closed = refl; listed = listed }

    refused : IsRefused key until (end_dialog (refuse_row a.then_now other t))
    unfolding refused_until
    refused = record { closed = refl; listed = rw apart listed }

    after_answer-Still :
        (remember : Bool) (check : Option CheckError) (done : List Action)
        → Still (allowed c a other t remember check done)
    after_answer-Still true none done = ended
    after_answer-Still false none done = ended
    after_answer-Still remember (some x) done = ended

    after_wait-Still : (o : Option (Outcome × Bool)) → Each Still (after_wait c a other t o)
    after_wait-Still none = tt
    after_wait-Still (some (once, b)) =
        after_answer-Still false a.recheck (asks c ∷ notifies ∷ cancelled b)
    after_wait-Still (some (pair, b)) =
        after_answer-Still true a.recheck (asks c ∷ notifies ∷ cancelled b)
    after_wait-Still (some (timeout, b)) = refused
    after_wait-Still (some (gone, b)) =
        if_rule Still a.stopping
          (record {
            actions = asks c ∷ notifies ∷ cancelled b;
            refusal = some was_cancelled;
            asking = end_dialog t;
          })
          (refused_with c a other t was_cancelled (asks c ∷ notifies ∷ cancelled b)) (λ _. ended)
          (λ _. refused)
    after_wait-Still (some (declined, b)) = refused

    after_open-Still : (o : Result AskError Bytes) → Each Still (after_open c a other t o)
    after_open-Still (err ask_pending) = ended
    after_open-Still (err ask_failed) = ended
    after_open-Still (ok id) = after_wait-Still (await a.rounds)

  opened_listed :
      (s t : Asking) (o : Option ℕ)
      → IsRefused key until s
      → bytes_eq key other ≡ false
      → open_unless a.now other s o ≡ ok t
      → refused_until key t.refused ≡ some until
  opened_listed s t none k n e =
      subst (λ (x : Asking). refused_until key x.refused ≡ some until) (ok-injective e) k.listed
  opened_listed s t (some u) k n e =
      elim (if_cases (λ x. x ≡ ok t) (ltb a.now u) (err declined_recently)
        (ok (record s { dialog = true; refused = forget other s.refused })) e) [
          | inl (_, q) ↦ cc
          | inr (_, q) ↦
              subst (λ (x : Asking). refused_until key x.refused ≡ some until) (ok-injective q)
                (forget-other key other s.refused n ∙ k.listed)
        ]

  begin_dialog-Still :
      (s : Asking) (o : Result ConsentError Asking)
      → IsRefused key until s
      → bytes_eq key other ≡ false
      → begin_dialog a.now other s ≡ o
      → Each Still (after_begin c a other s o)
  unfolding begin_dialog
  begin_dialog-Still s (err e) k n b = k
  begin_dialog-Still s (ok t) k n b =
      let begun : open_unless a.now other s (refused_until other s.refused) ≡ ok t =
        rw k.closed at b in
      after_open-Still t (opened_listed s t (refused_until other s.refused) k n begun)
        (bytes_eq-apart key other n) a.opened

IsRefused-begin :
    (now until : ℕ) (key : Bytes) (s : Asking)
    → IsRefused key until s
    → now < until
    → begin_dialog now key s ≡ err declined_recently
unfolding begin_dialog
IsRefused-begin now until key s k h = rw (k.closed, k.listed) (ground (arith, h))

consent-refused :
    (c : Consent) (a : Answers) (key : Bytes) (until : ℕ) (s : Asking)
    → to_lower c.row ≡ key
    → IsRefused key until s
    → a.now < until
    → consent c a s ≡ some (record { actions = []; refusal = some declined_recently; asking = s })
unfolding consent
consent-refused c a key until s e k l =
    let now_refused : begin_dialog a.now (to_lower c.row) s ≡ err declined_recently =
      rw e (IsRefused-begin a.now until key s k l) in
    ap (after_begin c a (to_lower c.row) s) now_refused

consent-IsRefused :
    (c : Consent) (a : Answers) (key : Bytes) (until : ℕ) (s : Asking)
    → IsRefused key until s
    → a.now < until
    → Each (λ (r : Consented). IsRefused key until r.asking) (consent c a s)
consent-IsRefused c a key until s k l = elim (Bool-cases (bytes_eq key (to_lower c.row))) [
  | inl e ↦
      rw (consent-refused c a key until s (sym ((bytes_eq_iff key (to_lower c.row)).0 e)) k l) k
  | inr n ↦
      unfold consent in
      begin_dialog-Still c a key (to_lower c.row) until s (begin_dialog a.now (to_lower c.row) s) k
        n refl
]

Each-IsRefused :
    (key : Bytes) (until : ℕ) (o : Option Consented) (rest : List (Consent × Answers)) {t : Asking}
    → Each (λ (r : Consented). IsRefused key until r.asking) o
    → ((s : Asking) → IsRefused key until s → consents rest s ≡ some t → IsRefused key until t)
    → (elim o [ none ↦ none | some r ↦ consents rest r.asking ]) ≡ some t
    → IsRefused key until t
Each-IsRefused key until none rest k ih e = cc
Each-IsRefused key until (some r) rest k ih e = ih r.asking k e

consents-IsRefused :
    (key : Bytes) (until : ℕ) (between : List (Consent × Answers)) (s : Asking) {t : Asking}
    → All (λ (x : Consent × Answers). x.1.now < until) between
    → IsRefused key until s
    → consents between s ≡ some t
    → IsRefused key until t
consents-IsRefused key until [] s l k e = subst (IsRefused key until) (some-injective _ _ e) k
consents-IsRefused key until ((c, a) ∷ rest) s {t} (h, l) k e =
    Each-IsRefused key until (consent c a s) rest (consent-IsRefused c a key until s k h)
      (λ u m q. consents-IsRefused key until rest u l m q) e

refuse_row-IsRefused :
    (a : Answers) (key : Bytes) (r : Consented)
    → Kept a key r
    → is_remembered a r.refusal ≡ true
    → IsRefused key (a.then_now + consent_refusal) r.asking
unfolding refused_until
refuse_row-IsRefused a key r kept h =
    let (t, left) = kept h in
    rw left (record { closed = refl; listed = rw (bytes_eq_refl key) refl })

-- After a consent that the user declined or left unanswered, or that its client cancelled while the
-- host was not stopping, and after whatever consents, of this row and of others, the host has had
-- since, one after the other and each begun less than a minute later: a consent for the same row, in
-- any case of its letters, that begins less than a minute later is refused without asking the user, and
-- changes nothing.
pub consent_remembered :
    (c c' : Consent) (a a' : Answers) (s : Asking) (between : List (Consent × Answers))
    {r : Consented} {t : Asking}
    → consent c a s ≡ some r
    → is_remembered a r.refusal ≡ true
    → All (λ (x : Consent × Answers). x.1.now < a.then_now + consent_refusal) between
    → consents between r.asking ≡ some t
    → to_lower c'.row ≡ to_lower c.row
    → a'.now < a.then_now + consent_refusal
    → consent c' a' t ≡ some (record { actions = []; refusal = some declined_recently; asking = t })
consent_remembered c c' a a' s between {r} {t} e h b q k l =
    let key = to_lower c.row in
    let kept : Kept a key r = Each-some (Kept a key) (consent-Kept c a s) e in
    consent-refused c' a' key (a.then_now + consent_refusal) t k
      (consents-IsRefused key (a.then_now + consent_refusal) between r.asking b
        (refuse_row-IsRefused a key r kept h) q)
      l
