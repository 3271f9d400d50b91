-- ===== src/Proxy/Typed.antt =====
-- internal/proxy/policy.go: the checks on text that is typed into a pane which the host does not
-- own, and its preview for the user.
pub mod Visible
use agterm_remote.Prelude.{
  Bool, List, Option, [], false, if◌then◌else◌, leb, length, ltb, map, none, some, take, within, ℕ,
  ◌*◌, ◌++◌, ◌==◌, ◌^◌, ◌||◌, ◌∷◌,
}
use agterm_remote.Result.{Result, err, ok}
use agterm_remote.Text.{Bytes, codes, itoa}
use agterm_remote.Utf8.{runes}

abbrev pub max_typed_text : ℕ
max_typed_text = 64 * 2 ^ 10

abbrev preview_runes : ℕ
preview_runes = 300

-- `unicode.Cc`
unfoldable pub is_control : ℕ → Bool
is_control r = leb r 0x1f || within 0x7f 0x9f r

-- `unicode.Cf`, by its ranges.
abbrev pub format_ranges : List (ℕ × ℕ)
format_ranges =
    (0xad, 0xad)
    ∷ (0x600, 0x605)
    ∷ (0x61c, 0x61c)
    ∷ (0x6dd, 0x6dd)
    ∷ (0x70f, 0x70f)
    ∷ (0x890, 0x891)
    ∷ (0x8e2, 0x8e2)
    ∷ (0x180e, 0x180e)
    ∷ (0x200b, 0x200f)
    ∷ (0x202a, 0x202e)
    ∷ (0x2060, 0x2064)
    ∷ (0x2066, 0x206f)
    ∷ (0xfeff, 0xfeff)
    ∷ (0xfff9, 0xfffb)
    ∷ (0x110bd, 0x110bd)
    ∷ (0x110cd, 0x110cd)
    ∷ (0x13430, 0x1343f)
    ∷ (0x1bca0, 0x1bca3)
    ∷ (0x1d173, 0x1d17a)
    ∷ (0xe0001, 0xe0001)
    ∷ (0xe0020, 0xe007f)
    ∷ []

unfoldable pub in_ranges : List (ℕ × ℕ) → ℕ → Bool
in_ranges [] r = false
in_ranges ((lo, hi) ∷ ranges) r = within lo hi r || in_ranges ranges r

unfoldable pub is_format : ℕ → Bool
is_format r = in_ranges format_ranges r

pub data TypedError : Type 0 where
  too_long : ℕ → TypedError
  not_utf8 : TypedError
  control_rune invisible_rune : ℕ → TypedError

-- the loop over the runes
unfoldable pub check_runes : List ℕ → Result TypedError Unit
check_runes [] = ok tt
check_runes (r ∷ rs) =
    let rest = check_runes rs in
    if r == b'\n' || r == b'\t'
    then rest
    else if is_control r
    then err (control_rune r)
    else if is_format r
    then err (invisible_rune r)
    else rest

check_decoded : Option (List ℕ) → Result TypedError Unit
check_decoded none = err not_utf8
check_decoded (some rs) = check_runes rs

unfoldable pub sanitize_typed : Bytes → Result TypedError Unit
unfolding check_decoded
sanitize_typed text =
    if ltb max_typed_text (length text)
    then err (too_long (length text))
    else check_decoded (runes text)

shown_rune : ℕ → ℕ
shown_rune r = if r == b'\n' then 0x23ce else if r == b'\t' then 0x21e5 else r

pub record PreviewParts : Type 0 where
  pub shown : List ℕ
  pub total : ℕ
  pub was_cut : Bool

-- On the runes of the text, which has passed `sanitize_typed`.
unfoldable pub preview_parts : List ℕ → PreviewParts
unfolding shown_rune
preview_parts rs =
    let was_cut = ltb preview_runes (length rs) in
    record {
      shown = map shown_rune (if was_cut then take preview_runes rs else rs);
      total = length rs;
      was_cut = was_cut;
    }

unfoldable pub preview : List ℕ → List ℕ
unfolding preview_parts
preview rs =
    let parts = preview_parts rs in
    if parts.was_cut
    then parts.shown ++ (0x2026 ∷ (codes " (" ++ (itoa parts.total ++ codes " characters)")))
    else parts.shown
