-- ===== src/Text.antt =====
-- Go strings and byte slices are lists of bytes.
use mathlib.Core.Bool.{false≢true}
use Prim.Native.Char.{code}
use agterm_remote.Prelude.{
  Bool-cases, inl, inr, sym, ◌∙◌, All, All-append, Bool, Bool-cases, List, String, [], any, arith,
  false, if_rule, if◌then◌else◌, inl, inr, is_nil, ltb, map, refl, suc, true, within, zero, ℕ, ◌%◌,
  ◌&&◌, ◌*◌, ◌++◌, ◌+◌, ◌-◌, ◌/◌, ◌<◌, ◌==◌, ◌||◌, ◌↔◌, ◌∙◌, ◌∷◌, ◌≡◌,
}

abbrev pub Bytes : Type 0
Bytes = List ℕ

-- The code points of a literal: its bytes, since every literal here is ASCII.
abbrev pub codes : String → Bytes
codes String.[] = []
codes (String.◌∷◌ c s) = code c ∷ codes s

-- `a == b` on strings
unfoldable pub bytes_eq : Bytes → Bytes → Bool
bytes_eq [] [] = true
bytes_eq (x ∷ xs) (y ∷ ys) = x == y && bytes_eq xs ys
bytes_eq _ _ = false

pub bytes_eq_iff : (a b : Bytes) → (bytes_eq a b ≡ true) ↔ (a ≡ b)
unfolding bytes_eq
bytes_eq_iff (x ∷ a) (y ∷ b) = ground (arith, bytes_eq_iff a b)
bytes_eq_iff _ _ = ground arith

pub bytes_eq_refl : (a : Bytes) → bytes_eq a a ≡ true
bytes_eq_refl a = (bytes_eq_iff a a).1 refl

-- `slices.Contains`
abbrev pub contains : List Bytes → Bytes → Bool
contains xs a = any (λ x. bytes_eq x a) xs

-- `strings.ContainsRune(s, c)` at an ASCII byte
abbrev pub has_byte : ℕ → Bytes → Bool
has_byte c s = any (λ x. x == c) s

-- `strings.HasPrefix(s, p)`
abbrev pub starts_with : Bytes → Bytes → Bool
starts_with s [] = true
starts_with [] (y ∷ p) = false
starts_with (x ∷ s) (y ∷ p) = x == y && starts_with s p

-- `strings.ToLower` and `strings.EqualFold`, on ASCII.
abbrev pub lower_byte : ℕ → ℕ
lower_byte c = if within b'A' b'Z' c then c + 32 else c

abbrev pub to_lower : Bytes → Bytes
to_lower = map lower_byte

abbrev pub equal_fold : Bytes → Bytes → Bool
equal_fold a b = bytes_eq (to_lower a) (to_lower b)

-- `strings.Cut` at a one-byte separator: before, after, found.
pub record Cut : Type 0 where
  pub before : Bytes
  pub after : Bytes
  pub found : Bool

unfoldable pub cut : ℕ → Bytes → Cut
cut sep [] = record { before = []; after = []; found = false }
cut sep (c ∷ s) =
    let rest = cut sep s in
    if c == sep
    then record { before = []; after = s; found = true }
    else record { before = c ∷ rest.before; after = rest.after; found = rest.found }

-- What stands before the separator of a text that starts with a separator-free name is the name.
pub cut-append :
    (sep : ℕ) (name rest : Bytes)
    → has_byte sep name ≡ false
    → cut sep (name ++ sep ∷ rest) ≡ (record { before = name; after = rest; found = true })
unfolding cut
cut-append sep [] rest h = ground arith
cut-append sep (c ∷ name) rest h = ground (arith, cut-append sep name rest)

pub cut_self :
    (sep : ℕ) (name : Bytes)
    → has_byte sep name ≡ false
    → cut sep name ≡ (record { before = name; after = []; found = false })
unfolding cut
cut_self sep [] h = refl
cut_self sep (c ∷ name) h = ground (arith, cut_self sep name)

-- `strings.Join`
abbrev pub join_tail : Bytes → List Bytes → Bytes
join_tail sep [] = []
join_tail sep (x ∷ xs) = sep ++ (x ++ join_tail sep xs)

abbrev pub join_with : Bytes → List Bytes → Bytes
join_with sep [] = []
join_with sep (x ∷ xs) = x ++ join_tail sep xs

-- `strconv.Itoa` on a number that is not negative; the fuel is one more than the number.
digits : ℕ → ℕ → Bytes
digits zero n = []
digits (suc fuel) n =
    let front = digits fuel (n / 10) in
    if ltb n 10 then (b'0' + n) ∷ [] else front ++ (b'0' + n % 10) ∷ []

unfoldable pub itoa : ℕ → Bytes
unfolding digits
itoa n = digits (suc n) n

abbrev is_digit : ℕ → Bool
is_digit c = within b'0' b'9' c

digits-All : (fuel n : ℕ) → All (λ c. is_digit c ≡ true) (digits fuel n)
unfolding digits
digits-All zero n = tt
digits-All (suc fuel) n = elim (Bool-cases (ltb n 10)) [
  | inl small ↦ rw small (ground arith, tt)
  | inr big ↦
      rw big (All-append _ (digits fuel (n / 10)) _ (digits-All fuel (n / 10)) (ground arith, tt))
]

-- A printed number is made of digits.
pub itoa_digits : (n : ℕ) → All (λ c. within b'0' b'9' c ≡ true) (itoa n)
unfolding itoa
itoa_digits n = digits-All (suc n) n

-- The value that decimal digits spell behind `n`.
abbrev pub value_from : ℕ → Bytes → ℕ
value_from n [] = n
value_from n (c ∷ s) = value_from (n * 10 + (c - b'0')) s

pub value-append : (s t : Bytes) (n : ℕ) → value_from n (s ++ t) ≡ value_from (value_from n s) t
value-append [] t n = refl
value-append (c ∷ s) t n = value-append s t (n * 10 + (c - b'0'))

value-digits : (fuel n : ℕ) → n < fuel → value_from 0 (digits fuel n) ≡ n
unfolding digits
value-digits zero n h = elim h [ ]
value-digits (suc fuel) n h = elim (Bool-cases (ltb n 10)) [
  | inl small ↦ rw small (ground arith)
  | inr big ↦ rw big (
      value-append (digits fuel (n / 10)) _ 0
      ∙ rw (value-digits fuel (n / 10) (ground arith)) (ground arith))
]

pub value-itoa : (n : ℕ) → value_from 0 (itoa n) ≡ n
unfolding itoa
value-itoa n = value-digits (suc n) n (omega arith)

itoa_test : itoa 1070 ≡ codes "1070"
unfolding itoa
itoa_test = refl

pub bytes_eq_sym : (a b : Bytes) → bytes_eq a b ≡ bytes_eq b a
bytes_eq_sym a b = elim (Bool-cases (bytes_eq a b)) [
  | inl e ↦ let same = (bytes_eq_iff a b).0 e in rw same
  | inr e ↦ elim (Bool-cases (bytes_eq b a)) [
    | inl f ↦ let same = (bytes_eq_iff b a).0 f in rw same
    | inr f ↦ rw (e, f)
  ]
]

-- Equal texts compare alike.
pub bytes_eq_congr : (a b c : Bytes) → bytes_eq a b ≡ true → bytes_eq a c ≡ bytes_eq b c
bytes_eq_congr a b c h = let same = (bytes_eq_iff a b).0 h in rw same

-- `strings.Fields` on ASCII text.
abbrev is_blank : ℕ → Bool
is_blank c = within 9 13 c || c == b' '

abbrev close_word : Bytes → List Bytes → List Bytes
close_word [] ws = ws
close_word (c ∷ w) ws = (c ∷ w) ∷ ws

abbrev fields_from : Bytes → Bytes → List Bytes
fields_from cur [] = close_word cur []
fields_from cur (c ∷ s) =
    let rest = fields_from (if is_blank c then [] else cur ++ c ∷ []) s in
    if is_blank c then close_word cur rest else rest

abbrev pub fields : Bytes → List Bytes
fields = fields_from []

-- With no separator there is nothing behind it.
pub cut_missing : (sep : ℕ) (s : Bytes) → (cut sep s).found ≡ false → (cut sep s).after ≡ []
unfolding cut
cut_missing sep [] h = refl
cut_missing sep (c ∷ s) h = ground (arith, cut_missing sep s)

not_nil_end : (w : Bytes) (d : ℕ) → is_nil (w ++ d ∷ []) ≡ false
not_nil_end [] d = refl
not_nil_end (c ∷ w) d = refl

-- A printed number is not empty.
pub itoa_nonempty : (n : ℕ) → is_nil (itoa n) ≡ false
unfolding itoa digits
itoa_nonempty n =
    if_rule (λ (s : Bytes). is_nil s ≡ false) (ltb n 10) _ _ (λ _. refl)
      (λ _. not_nil_end (digits n (n / 10)) (b'0' + n % 10))

pub bytes_eq-apart : (a b : Bytes) → bytes_eq a b ≡ false → bytes_eq b a ≡ false
bytes_eq-apart a b n = elim (Bool-cases (bytes_eq b a)) [
  | inl y ↦ absurd (false≢true (sym n ∙ (bytes_eq_iff a b).1 (sym ((bytes_eq_iff b a).0 y))))
  | inr y ↦ y
]
