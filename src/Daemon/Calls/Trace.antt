-- ===== src/Daemon/Calls/Trace.antt =====
-- internal/daemon/proxy.go, internal/daemon/consent.go: the commands among the actions of a call.
use agterm_remote.Bindings.{Grant}
use agterm_remote.Daemon.Consent.{
  Action, Answers, AskError, Asking, ConsentError, Consented, Outcome, adds_grant, after_answer,
  after_begin, after_open, after_wait, ask_failed, ask_pending, asks, await, begin_dialog,
  cancelled, cancels_dialog, checks_agent, conclude, consent, declined, drops_grant, end_dialog,
  gone, notices_typed, notifies, once, pair, refused_with, runs, timeout, was_cancelled,
}
use agterm_remote.Daemon.Consent.Allowed.{Each}
use agterm_remote.Prelude.{
  Bool, List, Option, [], ap, false, if_rule, map, none, refl, some, true, ◌++◌, ◌∙◌, ◌∷◌, ◌≡◌,
}
use agterm_remote.Proxy.Authz.{Consent}
use agterm_remote.Proxy.Call.{Call}
use agterm_remote.Proxy.Policy.{CheckError}
use agterm_remote.Result.{Result, err, ok}
use agterm_remote.Text.{Bytes, to_lower}

unfoldable pub runs_of : List Action → List Call
runs_of [] = []
runs_of (runs c ∷ l) = c ∷ runs_of l
runs_of (_ ∷ l) = runs_of l

pub runs_of-append : (xs ys : List Action) → runs_of (xs ++ ys) ≡ runs_of xs ++ runs_of ys
unfolding runs_of
runs_of-append [] ys = refl
runs_of-append (runs c ∷ xs) ys = ap (λ l. c ∷ l) (runs_of-append xs ys)
runs_of-append (asks c ∷ xs) ys = runs_of-append xs ys
runs_of-append (notifies ∷ xs) ys = runs_of-append xs ys
runs_of-append (cancels_dialog ∷ xs) ys = runs_of-append xs ys
runs_of-append (checks_agent r p ∷ xs) ys = runs_of-append xs ys
runs_of-append (adds_grant g ∷ xs) ys = runs_of-append xs ys
runs_of-append (drops_grant g ∷ xs) ys = runs_of-append xs ys
runs_of-append (notices_typed c ∷ xs) ys = runs_of-append xs ys

pub runs_of-drops : (gs : List Grant) → runs_of (map drops_grant gs) ≡ []
unfolding runs_of
runs_of-drops [] = refl
runs_of-drops (g ∷ gs) = runs_of-drops gs

runs_of-cancelled : (b : Bool) → runs_of (cancelled b) ≡ []
unfolding runs_of
runs_of-cancelled true = refl
runs_of-cancelled false = refl

runs_of-after_answer :
    (c : Consent) (remember : Bool) (check : Option CheckError)
    → runs_of (after_answer c remember check).0 ≡ []
unfolding runs_of
runs_of-after_answer c remember (some e) = refl
runs_of-after_answer c true none = refl
runs_of-after_answer c false none = refl

-- A consent runs nothing.
abbrev pub Still : Consented → Type 0
Still r = runs_of r.actions ≡ []

module _ (c : Consent) (a : Answers) (key : Bytes) (t : Asking) where
  conclude-Still :
      (o : Outcome) (done : List Action) → runs_of done ≡ [] → Still (conclude c a key t o done)
  conclude-Still once done e =
      runs_of-append done _ ∙ rw (e, runs_of-after_answer c false a.recheck) refl
  conclude-Still pair done e =
      runs_of-append done _ ∙ rw (e, runs_of-after_answer c true a.recheck) refl
  conclude-Still timeout done e = e
  conclude-Still declined done e = e
  conclude-Still gone done e =
      if_rule Still a.stopping
        (record { actions = done; refusal = some was_cancelled; asking = end_dialog t })
        (refused_with c a key t was_cancelled done) (λ _. e) (λ _. e)

  after_wait-Still : (o : Option (Outcome × Bool)) → Each Still (after_wait c a key t o)
  unfolding runs_of
  after_wait-Still none = tt
  after_wait-Still (some (o, b)) =
      conclude-Still o (asks c ∷ notifies ∷ cancelled b) (runs_of-cancelled b)

  after_open-Still : (o : Result AskError Bytes) → Each Still (after_open c a key t o)
  unfolding runs_of
  after_open-Still (err ask_pending) = refl
  after_open-Still (err ask_failed) = refl
  after_open-Still (ok id) = after_wait-Still (await a.rounds)

after_begin-Still :
    (c : Consent) (a : Answers) (key : Bytes) (s : Asking) (o : Result ConsentError Asking)
    → Each Still (after_begin c a key s o)
unfolding runs_of
after_begin-Still c a key s (err e) = refl
after_begin-Still c a key s (ok t) = after_open-Still c a key t a.opened

pub consent-Still : (c : Consent) (a : Answers) (s : Asking) → Each Still (consent c a s)
unfolding consent
consent-Still c a s =
    after_begin-Still c a (to_lower c.row) s (begin_dialog a.now (to_lower c.row) s)
