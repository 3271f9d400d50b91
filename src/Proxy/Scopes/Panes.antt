-- ===== src/Proxy/Scopes/Panes.antt =====
-- internal/proxy/policy.go: the decision of `paneScope` on one pane, and `typeLocal`.
use agterm_remote.Prelude.{
  Bool-cases, Option, arith, false, if_rule, if◌then◌else◌, inl, inr, is_none, none, not, refl,
  some, subst, true, ◌≡◌,
}
use agterm_remote.Proxy.Authz.{
  Authz, Consent, Reason, Verdict, allow, ask, bad_agent, bound_to_a_host,
}
use agterm_remote.Proxy.Call.{Call}
use agterm_remote.Proxy.Scopes.{
  decide_pane, is_foreign, is_granted, pane_call, preview_of, raise, sanitized_text, type_local,
  type_text, unowned,
}
use agterm_remote.Proxy.Scopes.Rows.{raised}
use agterm_remote.Proxy.Targets.{check_owned, owned_by}
use agterm_remote.Proxy.Targets.Owned.{Owned, check_owned-Owned}
use agterm_remote.Proxy.Tree.{Surface, TreeRow, agent_running, bound_at_pane}
use agterm_remote.Proxy.Typed.{sanitize_typed}
use agterm_remote.Result.{>>=-eq-ok, Result, Result-cases, ok, ok-injective}
use agterm_remote.Text.{Bytes}
use mathlib.Core.Option

-- What must hold before text may reach a pane that the host does not own.
pub record TypesInto (a : Authz) (row : TreeRow) (s : Surface) (c : Consent) : Type 0 where
  pub types_only : a.leaf.typing ≡ true
  pub unbound : bound_at_pane a.bound s.pane_id ≡ none
  pub runs_agent : agent_running a.agents row s.kind ≡ none
  pub text_given : type_text a ≡ ok c.text
  pub text_clean : sanitize_typed c.text ≡ ok tt
  pub names_row : c.row ≡ row.id
  pub names_pane : c.pane_id ≡ s.pane_id

-- The call of a verdict.
abbrev pub verdict_call : Verdict → Call
verdict_call (allow call _) = call
verdict_call (ask call _) = call

-- What a verdict on a pane shows.
abbrev pub PaneSafe : Authz → TreeRow → Surface → Verdict → Type 0
PaneSafe a row s (allow call none) = Owned a row s
PaneSafe a row s (allow call (some c)) =
    TypesInto a row s c × (is_granted a row s ≡ true) × (call.granted ≡ true)
PaneSafe a row s (ask call c) = TypesInto a row s c × (is_granted a row s ≡ false)

sanitized : (text : Bytes) {u : Unit} → sanitized_text text ≡ ok u → sanitize_typed text ≡ ok tt
unfolding sanitized_text
sanitized text h = elim (Result-cases (sanitize_typed text)) [
  | inl (e, r) ↦ cc (rw (r, sanitized_text) at h)
  | inr (t, r) ↦ r
]

unmapped : {A : Type 0} (f : A → Reason) (o : Option A) → Option.map f o ≡ none → o ≡ none
unmapped f none h = refl
unmapped f (some x) h = cc

module _ (a : Authz) (call : Call) (row : TreeRow) (s : Surface) where
  abbrev consent_to : Bytes → Consent
  consent_to text = record {
    row = row.id;
    row_name = row.name;
    pane_id = s.pane_id;
    text = text;
    preview = preview_of text;
  }

  typed-PaneSafe :
      (text : Bytes) {v : Verdict}
      → TypesInto a row s (consent_to text)
      → ◌≡◌ {A = Result Reason Verdict}
          (ok (
            if is_granted a row s
            then allow (record call { granted = true }) (some (consent_to text))
            else ask call (consent_to text)))
          (ok v)
      → PaneSafe a row s v
  typed-PaneSafe text m h =
      subst (PaneSafe a row s) (ok-injective h)
        (if_rule (PaneSafe a row s) (is_granted a row s) _ _ (λ g. (m, g, refl)) (λ g. (m, g)))

  type_local-PaneSafe :
      {v : Verdict} → a.leaf.typing ≡ true → type_local a call row s ≡ ok v → PaneSafe a row s v
  unfolding type_local
  type_local-PaneSafe typing h =
      let (_, e₁, r₁) =
        >>=-eq-ok
          (raise (Option.map (λ b. bound_to_a_host s.pane_id) (bound_at_pane a.bound s.pane_id))) _
          h in
      let (_, e₂, r₂) =
        >>=-eq-ok (raise (Option.map bad_agent (agent_running a.agents row s.kind))) _ r₁ in
      let (text, e₃, r₃) = >>=-eq-ok (type_text a) _ r₂ in
      let (_, e₄, r₄) = >>=-eq-ok (sanitized_text text) _ r₃ in
      typed-PaneSafe text
        (record {
          types_only = typing;
          unbound = unmapped (λ b. bound_to_a_host s.pane_id) _ (raised _ e₁);
          runs_agent = unmapped bad_agent _ (raised _ e₂);
          text_given = e₃;
          text_clean = sanitized text e₄;
          names_row = refl;
          names_pane = refl;
        })
        r₄

  unowned-PaneSafe : {v : Verdict} → unowned a call row s ≡ ok v → PaneSafe a row s v
  unfolding unowned
  unowned-PaneSafe h = elim (Bool-cases (not (is_none (bound_at_pane a.bound s.pane_id)))) [
    | inl e ↦ cc (rw e at h)
    | inr e ↦
        let h₁ = rw e at h in
        elim (Bool-cases a.leaf.typing) [
          | inl t ↦ type_local-PaneSafe t (ground (arith, h₁, t))
          | inr t ↦ absurd (ground (arith, h₁, t))
        ]
  ]

module _ (a : Authz) (row : TreeRow) (s : Surface) where
  -- A pane-level call that is not refused acts on a pane that is bound to the host for this row and
  -- still attached; or it types into a pane that no host holds and that runs an allowed agent, with
  -- text that passed the checks: by a grant of the caller for that pane, or once the user agrees.
  pub decide_pane-PaneSafe : {v : Verdict} → decide_pane a row s ≡ ok v → PaneSafe a row s v
  unfolding decide_pane
  decide_pane-PaneSafe h = elim (Bool-cases (is_foreign a (bound_at_pane a.bound s.pane_id))) [
    | inl e ↦ cc (rw e at h)
    | inr e ↦
        let h₁ = rw e at h in
        elim (Bool-cases (not (is_none (owned_by a row s)))) [
          | inr f ↦ unowned-PaneSafe a (pane_call a row s) row s (rw f at h₁)
          | inl f ↦
              let (_, e₁, r₁) = >>=-eq-ok (raise (check_owned a row s)) _ (rw f at h₁) in
              subst (PaneSafe a row s) (ok-injective r₁) (check_owned-Owned a row s (raised _ e₁))
        ]
  ]
