-- ===== src/Daemon/Version/Ordered.antt =====
-- internal/agterm/client.go: printed versions and their order.
-- A version as it is printed.
use agterm_remote.Daemon.Version.{Parts, parts_less, parts_of, trim_v, version_less, version_parts}
use agterm_remote.Int.{atoi-itoa, max_int}
use agterm_remote.Prelude.{
  All, [], ap, arith, false, is_nil, refl, some, sym, true, within, ◌++◌, ◌<◌, ◌==◌, ◌↔◌, ◌∙◌, ◌∷◌,
  ◌≡◌, ◌≤◌, ◌⊎◌,
}
use agterm_remote.Remote.Sessions.{split}
use agterm_remote.Remote.Sessions.Split.{digits_lack, split-append, split_self}
use agterm_remote.Text.{Bytes, Cut, cut, cut_self, itoa, itoa_digits, itoa_nonempty}
use mathlib.Core.Bool.{false≢true}

abbrev pub print_version : Parts → Bytes
print_version (a, (b, c)) = itoa a ++ b'.' ∷ (itoa b ++ b'.' ∷ itoa c)

abbrev pub IsSmall : Parts → Type 0
IsSmall (a, (b, c)) = (a ≤ max_int) × (b ≤ max_int) × (c ≤ max_int)

first_digit :
    (s : Bytes) (t : Bytes)
    → is_nil s ≡ false
    → All (λ c. within b'0' b'9' c ≡ true) s
    → trim_v (s ++ t) ≡ s ++ t
first_digit [] t e h = absurd (false≢true (sym e))
first_digit (c ∷ s) t e (d, h) = let other : c == b'v' ≡ false = ground (arith, d) in rw other refl

version_parts-print_version : (p : Parts) → IsSmall p → version_parts (print_version p) ≡ some p
unfolding version_parts parts_of
version_parts-print_version (a, (b, c)) (ha, hb, hc) =
    let chunks = itoa a ∷ itoa b ∷ itoa c ∷ [] in
    let cuts : split b'.' (print_version (a, (b, c))) ≡ chunks =
      split-append b'.' (itoa a) _ (digits_lack b'.' (itoa a) refl (itoa_digits a))
      ∙ ap (λ l. itoa a ∷ l)
          (split-append b'.' (itoa b) (itoa c) (digits_lack b'.' (itoa b) refl (itoa_digits b))
            ∙ ap (λ l. itoa b ∷ l)
                (split_self b'.' (itoa c) (digits_lack b'.' (itoa c) refl (itoa_digits c)))) in
    let patch : (cut b'-' (itoa c)).before ≡ itoa c =
      ap (λ (k : Cut). k.before)
        (cut_self b'-' (itoa c) (digits_lack b'-' (itoa c) refl (itoa_digits c))) in
    rw
      (
        first_digit (itoa a) (b'.' ∷ (itoa b ++ b'.' ∷ itoa c)) (itoa_nonempty a) (itoa_digits a),
        cuts,
        patch,
        atoi-itoa a ha,
        atoi-itoa b hb,
        atoi-itoa c hc,
      )
      refl

-- The reference order: by the first part that differs.
abbrev pub IsBelow : Parts → Parts → Type 0
IsBelow (a, (b, c)) (x, (y, z)) = (a < x) ⊎ (a ≡ x) × ((b < y) ⊎ (b ≡ y) × (c < z))

parts_less-IsBelow : (p q : Parts) → (parts_less p q ≡ true) ↔ IsBelow p q
parts_less-IsBelow (a, (b, c)) (x, (y, z)) = (λ h. ground (arith, h), λ h. ground (arith, h))

-- A printed version is less than another just where its numbers are, compared in their order.
pub version_less-IsBelow :
    (p q : Parts)
    → IsSmall p
    → IsSmall q
    → (version_less (print_version p) (print_version q) ≡ true) ↔ IsBelow p q
unfolding version_less
version_less-IsBelow p q hp hq =
    rw (version_parts-print_version p hp, version_parts-print_version q hq) (parts_less-IsBelow p q)
