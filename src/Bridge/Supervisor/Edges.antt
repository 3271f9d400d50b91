-- ===== src/Bridge/Supervisor/Edges.antt =====
-- internal/bridge/supervisor.go: how the state changes, and what `Changes` is told of it.
-- The ways that `Changes` can tell a state after another.
use agterm_remote.Bridge.Supervisor.{
  OtherStep, Reach, RunStep, State, Step, Supervisor, at, backing_off, connecting, down, leaving,
  offer, others, promote, receive, runs, see_alive, see_timer, set_state, state_eq, stop_down,
  tell_connecting, tell_down, up, watching,
}
use agterm_remote.Bridge.Supervisor.Consistent.{
  IsConsistent, Reach-IsConsistent, phase_facts, promoted_state,
}
use agterm_remote.Prelude.{
  Bool, ap, false, if_rule, inl, inr, refl, subst, sym, true, ◌∙◌, ◌∷◌, ◌≡◌, ◌≢◌, ◌⊎◌,
}

pub data Edge : State → State → Type 0 where
  connects : Edge down connecting
  proves : Edge connecting up
  loses : Edge connecting down
  drops : Edge up down

abbrev pub Quiet : Supervisor → Supervisor → Type 0
Quiet s t =
    (t.state ≡ s.state) × ((t.changes ≡ s.changes) ⊎ ((c : State) × (s.changes ≡ c ∷ t.changes)))

abbrev pub Told : Supervisor → Supervisor → Type 0
Told s t = Edge s.state t.state × (t.changes ≡ offer t.state s.changes)

state_eq-true : (a b : State) → state_eq a b ≡ true → a ≡ b
unfolding state_eq
state_eq-true down down e = refl
state_eq-true up up e = refl
state_eq-true connecting connecting e = refl
state_eq-true _ _ e = cc

-- A call of `setState` that really changes the state sends the new one.
told :
    (new : State) (s t : Supervisor)
    → t.state ≡ new
    → t.changes ≡ (set_state new s).changes
    → s.state ≢ new
    → Edge s.state new
    → Told s t
told new s t e cs n edge =
    let sent : (set_state new s).changes ≡ offer new s.changes =
      if_rule (λ x. x ≡ offer new s.changes) (state_eq s.state new) s.changes (offer new s.changes)
        (λ q. absurd (n (state_eq-true s.state new q))) (λ _. refl) in
    (subst (Edge s.state) (sym e) edge, cs ∙ sent ∙ ap (λ x. offer x s.changes) (sym e))

falls : (state : State) → state ≢ down → Edge state down
falls down n = absurd (n refl)
falls up n = drops
falls connecting n = loses

promote-Told :
    (p : Bool) (s t : Supervisor)
    → s.state ≡ promoted_state p
    → t.state ≡ s.state
    → t.changes ≡ s.changes
    → Quiet s (promote p t) ⊎ Told s (promote p t)
promote-Told true s t e st cs = inl (st, inl cs)
promote-Told false s t e st cs = inr (
    told up s (at (watching true) (set_state up t)) refl (rw (st, cs)) (λ q. absurd cc)
      (subst (λ x. Edge x up) (sym e) proves))

RunStep-Told : {s t : Supervisor} → IsConsistent s → RunStep s t → Quiet s t ⊎ Told s t
RunStep-Told {s} c (tell_connecting e) =
    let d : s.state ≡ down = (phase_facts c e).1 in
    inr (
      told connecting s (at (watching false) (record (set_state connecting s) { timer = true }))
        refl refl (λ q. absurd cc) (subst (λ x. Edge x connecting) (sym d) connects))
RunStep-Told {s} c (see_alive p e _) =
    promote-Told p s (record s { alive = false }) (phase_facts c e).1 refl refl
RunStep-Told {s} c (see_timer p e _) =
    promote-Told p s (record s { timer = false }) (phase_facts c e).1 refl refl
RunStep-Told {s} c (tell_down e) =
    let n = (phase_facts c e).1 in
    inr (told down s (at backing_off (set_state down s)) refl refl n (falls s.state n))
RunStep-Told {s} c (stop_down e) =
    let n = (phase_facts c e).1 in
    inr (told down s (at leaving (set_state down s)) refl refl n (falls s.state n))
RunStep-Told c _ = inl (refl, inl refl)

OtherStep-Quiet : {s t : Supervisor} → OtherStep s t → Quiet s t
OtherStep-Quiet (receive x cs e) = (refl, inr (x, e))
OtherStep-Quiet _ = (refl, inl refl)

-- From any reachable supervisor, a step either leaves the state, and sends nothing to the channel of
-- changes (at most its head is received), or it takes the state along one of the four edges, from
-- down to connecting, from connecting to up or down, or from up to down, and the new state is what it
-- offers to the channel, which takes it unless it is full. No change repeats the state before it.
pub Step-Edge : {s t : Supervisor} → Reach s → Step s t → Quiet s t ⊎ Told s t
Step-Edge r (runs x) = RunStep-Told (Reach-IsConsistent r) x
Step-Edge r (others x) = inl (OtherStep-Quiet x)
