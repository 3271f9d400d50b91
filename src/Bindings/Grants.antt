-- ===== src/Bindings/Grants.antt =====
-- internal/bindings/store.go: `AddGrant`, `DropGrant`, and looking a session up afterwards.
use agterm_remote.Bindings.{
  Binding, Grant, by_host_name, edit_grants, edit_one, grant_eq, is_session, nil_if_empty,
  supersedes, with_grant, without_grant,
}
use agterm_remote.Bindings.Distinct.{IsDistinct}
use agterm_remote.Prelude.{
  All, All-map, Bool, Bool-cases, List, Option, [], any, arith, false, if◌then◌else◌, inl, inr,
  none, not, refl, some, true, ◌&&◌, ◌++◌, ◌||◌, ◌↔◌, ◌∷◌, ◌≡◌,
}
use agterm_remote.Text.{Bytes, bytes_eq, bytes_eq_congr, bytes_eq_refl, bytes_eq_sym}
use mathlib.Core.Option

abbrev pub has_grant : Grant → List Grant → Bool
has_grant g gs = any (λ have. grant_eq have g) gs

grant_eq_refl : (g : Grant) → grant_eq g g ≡ true
unfolding grant_eq
grant_eq_refl g = rw (bytes_eq_refl g.row, bytes_eq_refl g.pane_id, bytes_eq_refl g.kind)

-- Equal grants compare alike with a third.
grant_eq_congr : (a g h : Grant) → grant_eq a g ≡ true → grant_eq a h ≡ grant_eq g h
unfolding grant_eq
grant_eq_congr a g h e = ground (
  arith,
  bytes_eq_congr a.row g.row h.row,
  bytes_eq_congr a.pane_id g.pane_id h.pane_id,
  bytes_eq_congr a.kind g.kind h.kind,
)

grant_eq_sym : (g h : Grant) → grant_eq g h ≡ grant_eq h g
unfolding grant_eq
grant_eq_sym g h =
    rw (bytes_eq_sym g.row h.row, bytes_eq_sym g.pane_id h.pane_id, bytes_eq_sym g.kind h.kind)

has_grant-append :
    (h g : Grant) (gs : List Grant) → has_grant h (gs ++ g ∷ []) ≡ (has_grant h gs || grant_eq g h)
has_grant-append h g [] = ground arith
has_grant-append h g (x ∷ gs) = ground (arith, has_grant-append h g gs)

has_grant-congr :
    (h g : Grant) (gs : List Grant)
    → has_grant g gs ≡ true
    → grant_eq g h ≡ true
    → has_grant h gs ≡ true
has_grant-congr h g [] e f = cc
has_grant-congr h g (x ∷ gs) e f = ground (arith, grant_eq_congr x g h, has_grant-congr h g gs)

-- After `AddGrant` exactly the grants that were there and the new one are held.
pub has_grant-with_grant :
    (h g : Grant) (gs : List Grant)
    → has_grant h (with_grant g gs) ≡ (has_grant h gs || grant_eq g h)
unfolding with_grant
has_grant-with_grant h g gs = ground (arith, has_grant-append h g gs, has_grant-congr h g gs)

-- After `DropGrant` exactly the grants that were there and are not the dropped one are held.
pub has_grant-without_grant :
    (h g : Grant) (gs : List Grant)
    → has_grant h (without_grant g gs) ≡ (has_grant h gs && not (grant_eq g h))
unfolding without_grant
has_grant-without_grant h g [] = refl
has_grant-without_grant h g (x ∷ gs) = ground (
  arith,
  has_grant-without_grant h g gs,
  grant_eq_congr x g h,
  grant_eq_congr x h g,
  grant_eq_sym g h,
)

-- What a successful edit leaves has the property.
abbrev pub Holds {κ} : (List Binding → Type κ) → Option (List Binding) → Type κ
Holds P none = Unit
Holds P (some bs) = P bs

supersedes-edit_one :
    (edit : List Grant → List Grant) (a b : Binding)
    → supersedes a b ≡ false
    → (supersedes a (edit_one edit b) ≡ false) × (supersedes (edit_one edit a) b ≡ false)
unfolding supersedes nil_if_empty
supersedes-edit_one edit a b h = (h, h)

module _ (host name : Bytes) (edit : List Grant → List Grant) where
  All-cons :
      (P : Binding → Type 0) (b : Binding) (o : Option (List Binding))
      → P b
      → Holds (All P) o
      → Holds (All P) (Option.map (λ rest. b ∷ rest) o)
  All-cons P b none p h = tt
  All-cons P b (some bs) p h = (p, h)

  All-edit_grants :
      (P : Binding → Type 0) (bs : List Binding)
      → ((x : Binding) → P x → P (edit_one edit x))
      → All P bs
      → Holds (All P) (edit_grants host name edit bs)
  unfolding edit_grants nil_if_empty
  All-edit_grants P [] keep h = tt
  All-edit_grants P (b ∷ bs) keep (p, h) = elim (Bool-cases (is_session host name b)) [
    | inl e ↦ rw e (keep b p, h)
    | inr e ↦ rw e (All-cons P b (edit_grants host name edit bs) p (All-edit_grants P bs keep h))
  ]

  IsDistinct-cons :
      (b : Binding) (o : Option (List Binding))
      → Holds (All (λ x. supersedes b x ≡ false)) o
      → Holds IsDistinct o
      → Holds IsDistinct (Option.map (λ rest. b ∷ rest) o)
  IsDistinct-cons b none h d = tt
  IsDistinct-cons b (some bs) h d = (h, d)

  pub Holds-IsDistinct :
      (bs : List Binding) → IsDistinct bs → Holds IsDistinct (edit_grants host name edit bs)
  unfolding edit_grants nil_if_empty
  Holds-IsDistinct [] d = tt
  Holds-IsDistinct (b ∷ bs) (p, d) = elim (Bool-cases (is_session host name b)) [
    | inl e ↦ rw e (All-map (λ x h. (supersedes-edit_one edit b x h).1) bs p, d)
    | inr e ↦ rw e (
        IsDistinct-cons b (edit_grants host name edit bs)
          (All-edit_grants (λ x. supersedes b x ≡ false) bs
            (λ x h. (supersedes-edit_one edit b x h).0) p)
          (Holds-IsDistinct bs d))
  ]

  -- What a lookup of session `h`, `n` finds after a successful edit.
  abbrev pub edited : Bytes → Bytes → Option Binding → Option Binding
  unfolding nil_if_empty
  edited h n o = if bytes_eq host h && bytes_eq name n then Option.map (edit_one edit) o else o

  by_host_name-cons :
      (h n : Bytes) (b : Binding) (bs : List Binding) (o : Option (List Binding))
      → is_session host name b ≡ false
      → Holds (λ bs'. by_host_name h n bs' ≡ edited h n (by_host_name h n bs)) o
      → Holds
          (λ bs'. by_host_name h n bs' ≡ edited h n (by_host_name h n (b ∷ bs)))
          (Option.map (λ rest. b ∷ rest) o)
  unfolding by_host_name nil_if_empty
  by_host_name-cons h n b bs none e k = tt
  by_host_name-cons h n b bs (some bs') e k = ground (
    arith,
    bytes_eq_congr host h b.host,
    bytes_eq_congr name n b.name,
    bytes_eq_sym host b.host,
    bytes_eq_sym h b.host,
    bytes_eq_sym name b.name,
    bytes_eq_sym n b.name,
  )

  by_host_name_head :
      (h n : Bytes) (b : Binding) (bs : List Binding)
      → is_session host name b ≡ true
      → by_host_name h n (edit_one edit b ∷ bs) ≡ edited h n (by_host_name h n (b ∷ bs))
  unfolding by_host_name nil_if_empty
  by_host_name_head h n b bs e =
      ground (arith, bytes_eq_congr b.host host h, bytes_eq_congr b.name name n)

  Holds-edit_grants :
      (h n : Bytes) (bs : List Binding)
      → Holds
          (λ bs'. by_host_name h n bs' ≡ edited h n (by_host_name h n bs))
          (edit_grants host name edit bs)
  unfolding edit_grants nil_if_empty
  Holds-edit_grants h n [] = tt
  Holds-edit_grants h n (b ∷ bs) = elim (Bool-cases (is_session host name b)) [
    | inl e ↦ rw e (by_host_name_head h n b bs e)
    | inr e ↦
        rw e
          (by_host_name-cons h n b bs (edit_grants host name edit bs) e (Holds-edit_grants h n bs))
  ]

  -- A successful edit of grants keeps the database free of conflicts.
  pub IsDistinct-edit_grants :
      (bs : List Binding) {bs' : List Binding}
      → edit_grants host name edit bs ≡ some bs'
      → IsDistinct bs
      → IsDistinct bs'
  IsDistinct-edit_grants bs e d = rw e at (Holds-IsDistinct bs d)

  -- A successful edit changes the grants of the binding that its session resolves to, and a lookup
  -- of any other session finds what it found before.
  pub by_host_name-edit_grants :
      (h n : Bytes) (bs : List Binding) {bs' : List Binding}
      → edit_grants host name edit bs ≡ some bs'
      → by_host_name h n bs' ≡ edited h n (by_host_name h n bs)
  by_host_name-edit_grants h n bs e = rw e at (Holds-edit_grants h n bs)

  missing-cons :
      (b : Binding) (o : Option (List Binding))
      → (Option.map (λ rest. b ∷ rest) o ≡ none) ↔ (o ≡ none)
  missing-cons b none = ground arith
  missing-cons b (some bs) = ground arith

  -- An edit fails exactly when its session has no binding.
  pub edit_grants_missing :
      (bs : List Binding)
      → (edit_grants host name edit bs ≡ none) ↔ (by_host_name host name bs ≡ none)
  unfolding edit_grants by_host_name
  edit_grants_missing [] = ((λ h. refl), (λ h. refl))
  edit_grants_missing (b ∷ bs) =
      ground (arith, missing-cons b (edit_grants host name edit bs), edit_grants_missing bs)
