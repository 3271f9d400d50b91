-- ===== src/Proxy/Rewrite/Released.antt =====
-- internal/proxy/rewrite.go: `releaser` and the reservations.
use agterm_remote.Prelude.{
  Bool-cases, List, Option-cases, [], arith, false, inl, inr, refl, some, subst, sym, true, ℕ, ◌&&◌,
  ◌++◌, ◌∙◌, ◌∷◌, ◌≡◌,
}
use agterm_remote.Proxy.Rewrite.{release, reservation_key, reserved_for, reserved_name}
use agterm_remote.Text.{Bytes, bytes_eq, bytes_eq_iff, cut}
use mathlib.Core.Bool.{false≢true}
use mathlib.Core.Option.{some-injective}
use mathlib.Core.Path.{ap₂}

-- What a found separator splits is the text.
cut_found :
    (sep : ℕ) (s : Bytes)
    → (cut sep s).found ≡ true
    → s ≡ (cut sep s).before ++ sep ∷ (cut sep s).after
unfolding cut
cut_found sep [] h = cc
cut_found sep (c ∷ s) h = ground (arith, cut_found sep s)

-- The key that names a name of a host is its reservation key.
named-key :
    (host name key : Bytes) → reserved_name host key ≡ some name → key ≡ reservation_key host name
unfolding reserved_name reservation_key
named-key host name key h =
    let parts = cut 0 key in
    elim (Bool-cases (parts.found && bytes_eq parts.before host)) [
      | inl e ↦
          let host_is : parts.before ≡ host =
            (bytes_eq_iff parts.before host).0 (ground (arith, e)) in
          let name_is = some-injective parts.after name (rw e at h) in
          cut_found 0 key (ground (arith, e)) ∙ ap₂ (λ x y. x ++ 0 ∷ y) host_is name_is
      | inr e ↦ cc (rw e at h)
    ]

same_key :
    (host name key : Bytes) {t : Bytes}
    → reserved_name host key ≡ some t
    → t ≡ name
    → bytes_eq key (reservation_key host name) ≡ true
same_key host name key f g =
    (bytes_eq_iff key (reservation_key host name)).1
      (named-key host name key (subst (λ x. reserved_name host key ≡ some x) g f))

-- After a release the name is not reserved on its host.
pub release-free :
    (host name : Bytes) (reserved : List Bytes)
    → reserved_for host (release host name reserved) name ≡ false
unfolding reserved_for release
release-free host name [] = refl
release-free host name (key ∷ keys) =
    let rest = release-free host name keys in
    elim (Bool-cases (bytes_eq key (reservation_key host name))) [
      | inl e ↦ rw e rest
      | inr e ↦ rw e (elim (Option-cases (reserved_name host key)) [
        | inl f ↦ rw f rest
        | inr (t, f) ↦ rw f (elim (Bool-cases (bytes_eq t name)) [
          | inl g ↦
              absurd (false≢true (sym e ∙ same_key host name key f ((bytes_eq_iff t name).0 g)))
          | inr g ↦ rw g rest
        ])
      ])
    ]
