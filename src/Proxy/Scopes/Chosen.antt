-- ===== src/Proxy/Scopes/Chosen.antt =====
-- internal/proxy/policy.go: the pane that `choosePane` returns.
use agterm_remote.Prelude.{
  Bool, Bool-cases, List, Member, Member-filter, Option, [], ap, arith, filter, find-Member,
  find_last, find_last-Member, here, if◌then◌else◌, inl, inr, none, not, some, subst, ◌&&◌, ◌∷◌,
  ◌≡◌, ◌⊎◌,
}
use agterm_remote.Proxy.Authz.{Authz, Reason, own_pane_gone}
use agterm_remote.Proxy.Scopes.{choose_pane, default_pane, from_found, is_candidate, only_candidate}
use agterm_remote.Proxy.Targets.{is_caller_row, pane_by_id, pane_by_side, requested_pane, side_kind}
use agterm_remote.Proxy.Tree.{Surface, TreeRow, is_pane, panes, surface_by_id}
use agterm_remote.Result.{>>=-eq-ok, ok, ok-injective}
use agterm_remote.Text.{Bytes, bytes_eq, equal_fold}

pub found-ok :
    {A : Type 0} {x : A} (o : Option A) (why : Reason) → from_found why o ≡ ok x → o ≡ some x
found-ok none why h = cc
found-ok (some x) why h = ap some (ok-injective h)

abbrev is_side : Authz → Surface → Bool
is_side a x = bytes_eq x.kind (side_kind a.norm.raw_side)

module _ (a : Authz) (row : TreeRow) {s : Surface} where
  from_id : pane_by_id a row ≡ ok (some s) → (id : Bytes) × (surface_by_id row id ≡ some s)
  unfolding pane_by_id
  from_id h =
      let own = not (bytes_eq a.self_pane []) && equal_fold a.norm.raw_pane a.self_pane in
      (if own then a.caller.pane_id else a.norm.raw_pane, ground arith)

  surface_by_id-Member : (id : Bytes) → surface_by_id row id ≡ some s → Member s row.surfaces
  unfolding surface_by_id
  surface_by_id-Member id h = find-Member (λ x. equal_fold x.pane_id id) row.surfaces h

  from_side :
      (given : Option Surface)
      → pane_by_side a row given ≡ ok (some s)
      → (given ≡ some s) ⊎ (find_last (is_side a) (panes row) ≡ some s)
  unfolding pane_by_side
  from_side given h = elim (Bool-cases (bytes_eq a.norm.raw_side [])) [
    | inl e ↦ inl (ground (arith, e))
    | inr e ↦ inr (ground (arith, e))
  ]

  panes-Member : Member s (panes row) → Member s row.surfaces
  unfolding panes
  panes-Member m = Member-filter is_pane row.surfaces m

  requested_pane-Member : requested_pane a row ≡ ok (some s) → Member s row.surfaces
  unfolding requested_pane
  requested_pane-Member h =
      let (given, e, rest) = >>=-eq-ok (pane_by_id a row) (pane_by_side a row) h in
      elim (from_side given rest) [
        | inl g ↦ let (id, f) = from_id (rw g at e) in surface_by_id-Member id f
        | inr f ↦ panes-Member (find_last-Member (is_side a) (panes row) f).0
      ]

  only_candidate-Member : (ss : List Surface) → only_candidate row ss ≡ ok s → Member s ss
  unfolding only_candidate
  only_candidate-Member [] h = cc
  only_candidate-Member (x ∷ []) h = subst (λ z. Member z (x ∷ [])) (ok-injective h) here
  only_candidate-Member (x ∷ y ∷ ss) h = cc

  default_pane-Member : (ss : List Surface) → default_pane a row ss ≡ ok s → Member s ss
  unfolding default_pane
  default_pane-Member [] h = cc
  default_pane-Member (x ∷ []) h = subst (λ z. Member z (x ∷ [])) (ok-injective h) here
  default_pane-Member (x ∷ y ∷ ss) h =
      Member-filter (is_candidate a row) (x ∷ y ∷ ss)
        (only_candidate-Member (filter (is_candidate a row) (x ∷ y ∷ ss)) h)

  own-or-default :
      (if is_caller_row a row
          then from_found own_pane_gone (surface_by_id row a.caller.pane_id)
          else default_pane a row (panes row))
        ≡ ok s
      → Member s row.surfaces
  own-or-default h = elim (Bool-cases (is_caller_row a row)) [
    | inl e ↦ surface_by_id-Member a.caller.pane_id (found-ok _ own_pane_gone (rw e at h))
    | inr e ↦ panes-Member (default_pane-Member (panes row) (rw e at h))
  ]

  given-Member :
      (given : Option Surface)
      → requested_pane a row ≡ ok given
      → (elim given [
        | some surface ↦ ok surface
        | none ↦
            if is_caller_row a row
            then from_found own_pane_gone (surface_by_id row a.caller.pane_id)
            else default_pane a row (panes row)
      ])
        ≡ ok s
      → Member s row.surfaces
  given-Member none e h = own-or-default h
  given-Member (some surface) e h =
      requested_pane-Member (subst (λ z. requested_pane a row ≡ ok (some z)) (ok-injective h) e)

  pub choose_pane-Member : choose_pane a row ≡ ok s → Member s row.surfaces
  unfolding choose_pane
  choose_pane-Member h =
      let (given, e, rest) = >>=-eq-ok (requested_pane a row) _ h in given-Member given e rest
