-- ===== src/Proxy/Scopes/Guarded.antt =====
-- internal/proxy/policy.go: `paneScope` and `callerScope`.
use agterm_remote.Prelude.{
  All, Bool-cases, List, Member, [], ap, arith, if_rule, inl, inr, is_none, none, not, refl, some,
  subst, sym, true, ◌∷◌, ◌≡◌,
}
use agterm_remote.Proxy.Authz.{
  Authz, Verdict, allow, bad_agent, bound_to_a_host, own_pane_gone, own_row_gone,
}
use agterm_remote.Proxy.Call.{Call, Target}
use agterm_remote.Proxy.Schema.{Scope, scope_caller, scope_none, scope_pane, scope_row}
use agterm_remote.Proxy.Scopes.{
  caller_scope, choose_pane, decide_pane, first_row, from_found, is_foreign, is_granted, own_rows,
  pane_call, pane_scope, raise, sanitized_text, type_local, type_text, unowned, with_targets,
}
use agterm_remote.Proxy.Scopes.Chosen.{choose_pane-Member, found-ok}
use agterm_remote.Proxy.Scopes.Panes.{PaneSafe, decide_pane-PaneSafe, verdict_call}
use agterm_remote.Proxy.Scopes.Rows.{IsLive, RowSafe, raised, target_rows-IsLive}
use agterm_remote.Proxy.Targets.{
  check_owned, is_caller_row, map_row, owned_by, target_of, target_rows,
}
use agterm_remote.Proxy.Targets.Owned.{Owned, check_owned-Owned}
use agterm_remote.Proxy.Tree.{Surface, TreeRow, agent_running, bound_at_pane, row_at, surface_by_id}
use agterm_remote.Result.{>>=-eq-ok, ok, ok-injective}
use agterm_remote.Text.{Bytes}
use mathlib.Core.Option

module _ (a : Authz) (call : Call) (row : TreeRow) (s : Surface) where
  type_local-targets :
      {v : Verdict} → type_local a call row s ≡ ok v → (verdict_call v).targets ≡ call.targets
  unfolding type_local
  type_local-targets h =
      let (_, _, r₁) =
        >>=-eq-ok
          (raise (Option.map (λ b. bound_to_a_host s.pane_id) (bound_at_pane a.bound s.pane_id))) _
          h in
      let (_, _, r₂) =
        >>=-eq-ok (raise (Option.map bad_agent (agent_running a.agents row s.kind))) _ r₁ in
      let (text, _, r₃) = >>=-eq-ok (type_text a) _ r₂ in
      let (_, _, r₄) = >>=-eq-ok (sanitized_text text) _ r₃ in
      subst (λ x. (verdict_call x).targets ≡ call.targets) (ok-injective r₄)
        (if_rule (λ x. (verdict_call x).targets ≡ call.targets) (is_granted a row s) _ _ (λ _. refl)
          (λ _. refl))

  unowned-targets :
      {v : Verdict} → unowned a call row s ≡ ok v → (verdict_call v).targets ≡ call.targets
  unfolding unowned
  unowned-targets {v} h = elim (Bool-cases (not (is_none (bound_at_pane a.bound s.pane_id)))) [
    | inl e ↦ cc (rw e at h)
    | inr e ↦
        let h₁ = rw e at h in
        elim (Bool-cases a.leaf.typing) [
          | inl t ↦ type_local-targets {v = v} (ground (arith, h₁, t))
          | inr t ↦ absurd (ground (arith, h₁, t))
        ]
  ]

module _ (a : Authz) (row : TreeRow) (s : Surface) where
  decide_pane-targets :
      {v : Verdict}
      → decide_pane a row s ≡ ok v
      → (verdict_call v).targets ≡ (pane_call a row s).targets
  unfolding decide_pane
  decide_pane-targets h = elim (Bool-cases (is_foreign a (bound_at_pane a.bound s.pane_id))) [
    | inl e ↦ cc (rw e at h)
    | inr e ↦
        let h₁ = rw e at h in
        elim (Bool-cases (not (is_none (owned_by a row s)))) [
          | inr f ↦ unowned-targets a (pane_call a row s) row s (rw f at h₁)
          | inl f ↦
              let (_, _, r₁) = >>=-eq-ok (raise (check_owned a row s)) _ (rw f at h₁) in
              ap (λ x. (verdict_call x).targets) (sym (ok-injective r₁))
        ]
  ]

-- The one target of a call names a row and a pane of it.
abbrev pub Names : Verdict → TreeRow → Surface → Type 0
Names v row s =
    (t : Target) × ((verdict_call v).targets ≡ t ∷ []) × (t.row ≡ row.id) × (t.pane_id ≡ s.pane_id)

-- What a verdict on a pane-level call shows.
pub record PaneActs (a : Authz) (v : Verdict) : Type 0 where
  pub row : TreeRow
  pub surface : Surface
  pub live : IsLive a row
  pub in_row : Member surface row.surfaces
  pub names : Names v row surface
  pub safe : PaneSafe a row surface v

pane_call-Names :
    (a : Authz) (row : TreeRow) (s : Surface) (v : Verdict)
    → (verdict_call v).targets ≡ (pane_call a row s).targets
    → Names v row s
unfolding pane_call target_of
pane_call-Names a row s v h = (_, h, refl, refl)

first-IsLive :
    (a : Authz) (rows : List TreeRow) {row : TreeRow}
    → first_row rows ≡ ok row
    → All (IsLive a) rows
    → IsLive a row
first-IsLive a [] h l = cc
first-IsLive a (row ∷ rows) h (l, ls) = subst (IsLive a) (ok-injective h) l

-- A pane-level call that is not refused has one target: a pane of a live row. The pane is the host's
-- and attached, or is one that may be typed into.
pub pane_scope-PaneActs : (a : Authz) {v : Verdict} → pane_scope a ≡ ok v → PaneActs a v
unfolding pane_scope
pane_scope-PaneActs a {v} h =
    let (rows, e₁, r₁) = >>=-eq-ok (target_rows a) _ h in
    let (row, e₂, r₂) = >>=-eq-ok (first_row rows) _ r₁ in
    let (s, e₃, r₃) = >>=-eq-ok (choose_pane a row) _ r₂ in
    record {
      row = row;
      surface = s;
      live = first-IsLive a rows e₂ (target_rows-IsLive a e₁);
      in_row = choose_pane-Member a row e₃;
      names = pane_call-Names a row s v (decide_pane-targets a row s r₃);
      safe = decide_pane-PaneSafe a row s r₃;
    }

-- A row that the call names is the caller's.
abbrev pub IsOwnRow : Authz → Bytes → Type 0
IsOwnRow a raw = (row : TreeRow) × (map_row a raw ≡ ok row) × (is_caller_row a row ≡ true)

own_rows-All :
    (a : Authz) (raws : List Bytes) {u : Unit} → own_rows a raws ≡ ok u → All (IsOwnRow a) raws
unfolding own_rows
own_rows-All a [] h = tt
own_rows-All a (raw ∷ raws) h =
    let (row, e, rest) = >>=-eq-ok (map_row a raw) _ h in
    elim (Bool-cases (is_caller_row a row)) [
      | inl o ↦ ((row, e, o), own_rows-All a raws (rw o at rest))
      | inr o ↦ cc (rw o at rest)
    ]

-- What a verdict on a call of the caller's own row shows.
pub record CallerSafe (a : Authz) (v : Verdict) : Type 0 where
  pub row : TreeRow
  pub surface : Surface
  pub live : row_at a.rows a.caller.row ≡ some row
  pub in_row : surface_by_id row a.caller.pane_id ≡ some surface
  pub owned : Owned a row surface
  pub own : All (IsOwnRow a) a.norm.raw_rows
  pub target : Target
  pub names_row : target.row ≡ row.id
  pub allowed : v ≡ allow (with_targets a.norm.call (target ∷ [])) none

-- A caller-level call that is not refused acts on the caller's own live row, whose pane is still the
-- host's and attached, and every row that the call names is that row.
pub caller_scope-CallerSafe : (a : Authz) {v : Verdict} → caller_scope a ≡ ok v → CallerSafe a v
unfolding caller_scope
caller_scope-CallerSafe a h =
    let (row, e₁, r₁) = >>=-eq-ok (from_found own_row_gone (row_at a.rows a.caller.row)) _ h in
    let (_, e₂, r₂) = >>=-eq-ok (own_rows a a.norm.raw_rows) _ r₁ in
    let (s, e₃, r₃) =
      >>=-eq-ok (from_found own_pane_gone (surface_by_id row a.caller.pane_id)) _ r₂ in
    let (_, e₄, r₄) = >>=-eq-ok (raise (check_owned a row s)) _ r₃ in
    record {
      row = row;
      surface = s;
      live = found-ok _ own_row_gone e₁;
      in_row = found-ok _ own_pane_gone e₃;
      owned = check_owned-Owned a row s (raised _ e₄);
      own = own_rows-All a a.norm.raw_rows e₂;
      target = _;
      names_row = refl;
      allowed = sym (ok-injective r₄);
    }

-- What each scope shows.
abbrev pub Guarded : Scope → Authz → Verdict → Type 0
Guarded scope_none a v = v ≡ allow a.norm.call none
Guarded scope_caller a v = CallerSafe a v
Guarded scope_pane a v = PaneActs a v
Guarded scope_row a v = RowSafe a v
