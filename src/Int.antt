-- ===== src/Int.antt =====
-- Signed integers, and `strconv.Atoi` with its 64-bit range.
use agterm_remote.Prelude.{
  All, Bool, Option, [], all, ap, arith, false, if◌then◌else◌, is_nil, leb, none, not, refl, some,
  suc, sym, true, within, zero, ℕ, ◌&&◌, ◌+◌, ◌-◌, ◌==◌, ◌^◌, ◌∙◌, ◌∷◌, ◌≡◌, ◌≤◌,
}
use agterm_remote.Text.{Bytes, itoa, itoa_digits, itoa_nonempty, value-itoa, value_from}
use mathlib.Core.Bool.{false≢true}

-- `negsuc n` is -(n + 1).
pub data ℤ : Type 0 where
  pos : ℕ → ℤ
  negsuc : ℕ → ℤ

abbrev pub max_int : ℕ
max_int = 2 ^ 63 - 1

all_digits : Bytes → Bool
all_digits s = not (is_nil s) && all (within b'0' b'9') s

negated : ℕ → ℤ
negated zero = pos 0
negated (suc n) = negsuc n

unsigned : Bytes → Option ℤ
unfolding all_digits
unsigned s =
    let n = value_from 0 s in
    if all_digits s then if leb n max_int then some (pos n) else none else none

minus : Bytes → Option ℤ
unfolding all_digits negated
minus s =
    let n = value_from 0 s in
    if all_digits s then if leb n (max_int + 1) then some (negated n) else none else none

-- `strconv.Atoi`: one sign, then digits; out of range is an error.
unfoldable pub atoi : Bytes → Option ℤ
unfolding unsigned minus
atoi [] = none
atoi (c ∷ s) = if c == b'-' then minus s else if c == b'+' then unsigned s else unsigned (c ∷ s)

unfoldable pub itoa_int : ℤ → Bytes
itoa_int (pos n) = itoa n
itoa_int (negsuc n) = b'-' ∷ itoa (suc n)

All-within : (s : Bytes) → All (λ c. within b'0' b'9' c ≡ true) s → all (within b'0' b'9') s ≡ true
All-within [] h = refl
All-within (c ∷ s) (d, h) = rw d (All-within s h)

atoi_digits :
    (s : Bytes)
    → is_nil s ≡ false
    → All (λ c. within b'0' b'9' c ≡ true) s
    → value_from 0 s ≤ max_int
    → atoi s ≡ some (pos (value_from 0 s))
unfolding atoi unsigned all_digits
atoi_digits [] e h l = absurd (false≢true (sym e))
atoi_digits (c ∷ s) e h l =
    let no_minus : c == b'-' ≡ false = ground (arith, h.0) in
    let no_plus : c == b'+' ≡ false = ground (arith, h.0) in
    let fits : leb (value_from 0 (c ∷ s)) max_int ≡ true = ground (arith, l) in
    rw (no_minus, no_plus, All-within (c ∷ s) h, fits) refl

-- A number that fits is read back.
pub atoi-itoa : (n : ℕ) → n ≤ max_int → atoi (itoa n) ≡ some (pos n)
atoi-itoa n h =
    let same = value-itoa n in
    atoi_digits (itoa n) (itoa_nonempty n) (itoa_digits n) (rw same h) ∙ ap (λ k. some (pos k)) same
