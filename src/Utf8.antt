-- ===== src/Utf8.antt =====
-- Go's `unicode/utf8`: validity and the runes of a valid text, by the table of lead bytes and the
-- range that each allows for the byte behind it.
use agterm_remote.Prelude.{
  Bool, List, Option, [], if◌then◌else◌, is_none, ltb, none, not, refl, some, suc, within, zero, ℕ,
  ◌*◌, ◌+◌, ◌-◌, ◌==◌, ◌∷◌, ◌≡◌,
}
use agterm_remote.Text.{Bytes}
use mathlib.Core.Option

-- `need` bytes are still to come, the next one from `lo` to `hi`; `acc` is the rune read so far.
pub record State : Type 0 where
  pub need : ℕ
  pub lo : ℕ
  pub hi : ℕ
  pub acc : ℕ

abbrev pub start : State
start = record { need = 0; lo = 0; hi = 0; acc = 0 }

abbrev lead : ℕ → ℕ → ℕ → ℕ → Option (State × Option ℕ)
lead n lo hi acc = some (record { need = n; lo = lo; hi = hi; acc = acc }, none)

first_byte : ℕ → Option (State × Option ℕ)
first_byte b =
    if ltb b 0x80
    then some (start, some b)
    else if within 0xc2 0xdf b
    then lead 1 0x80 0xbf (b - 0xc0)
    else if b == 0xe0
    then lead 2 0xa0 0xbf (b - 0xe0)
    else if b == 0xed
    then lead 2 0x80 0x9f (b - 0xe0)
    else if within 0xe1 0xef b
    then lead 2 0x80 0xbf (b - 0xe0)
    else if b == 0xf0
    then lead 3 0x90 0xbf (b - 0xf0)
    else if within 0xf1 0xf3 b
    then lead 3 0x80 0xbf (b - 0xf0)
    else if b == 0xf4
    then lead 3 0x80 0x8f (b - 0xf0)
    else none

next_byte : ℕ → State → ℕ → Option (State × Option ℕ)
next_byte left st b =
    let rune = st.acc * 64 + (b - 0x80) in
    if within st.lo st.hi b
    then if left == 0
      then some (start, some rune)
      else some (record { need = left; lo = 0x80; hi = 0xbf; acc = rune }, none)
    else none

-- One byte: the next state and the rune that it ends, if any.
unfoldable pub step : ℕ → State → ℕ → Option (State × Option ℕ)
unfolding first_byte next_byte
step zero st b = first_byte b
step (suc left) st b = next_byte left st b

abbrev pub emit : Option ℕ → List ℕ → List ℕ
emit none rs = rs
emit (some r) rs = r ∷ rs

unfoldable pub runes_from : State → Bytes → Option (List ℕ)
unfolding step
runes_from st [] = if st.need == 0 then some [] else none
runes_from st (b ∷ s) = elim (step st.need st b) [
  | none ↦ none
  | some (st', out) ↦ Option.map (emit out) (runes_from st' s)
]

unfoldable pub runes : Bytes → Option (List ℕ)
unfolding runes_from
runes = runes_from start

-- `utf8.Valid`
unfoldable pub is_utf8 : Bytes → Bool
unfolding runes
is_utf8 s = not (is_none (runes s))

euro : runes (0xe2 ∷ 0x82 ∷ 0xac ∷ 0x0a ∷ []) ≡ some (0x20ac ∷ 0x0a ∷ [])
unfolding runes
euro = refl

surrogate : runes (0xed ∷ 0xa0 ∷ 0x80 ∷ []) ≡ none
unfolding runes
surrogate = refl
