-- ===== src/Daemon/Consent/Dialog/Escaped.antt =====
-- internal/daemon/consent.go: the runes of a dialog.
-- A rune that the user can see.
use agterm_remote.Daemon.Consent.Dialog.{
  close_name, cut_note, dialog_for, escaped, hex_from, upper_hex, visible,
}
use agterm_remote.Prelude.{
  All, Bool, Bool-cases, List, [], all, all-append, arith, false, if_rule, inl, inr, length, ltb,
  not, refl, replicate, suc, true, within, zero, ℕ, ◌%◌, ◌++◌, ◌-◌, ◌/◌, ◌<◌, ◌||◌, ◌∷◌, ◌≡◌, ◌≤◌,
}
use agterm_remote.Proxy.Typed.{
  PreviewParts, format_ranges, in_ranges, is_control, is_format, preview_parts,
}
use agterm_remote.Text.{Bytes, codes, itoa, itoa_digits}

abbrev pub is_shown : ℕ → Bool
is_shown r = not (is_control r || is_format r)

abbrev pub all_shown : List ℕ → Bool
all_shown s = all is_shown s

in_ranges_below :
    (ranges : List (ℕ × ℕ)) (r : ℕ)
    → all (λ (p : ℕ × ℕ). ltb 126 p.0) ranges ≡ true
    → r ≤ 126
    → in_ranges ranges r ≡ false
unfolding in_ranges
in_ranges_below [] r h e = refl
in_ranges_below ((lo, hi) ∷ ranges) r h e = ground (arith, in_ranges_below ranges r)

-- Printable ASCII is shown.
ascii_shown : (r : ℕ) → 32 ≤ r → r ≤ 126 → is_shown r ≡ true
unfolding is_control is_format
ascii_shown r a b = ground (arith, in_ranges_below format_ranges r refl b)

upper_hex_shown : (d : ℕ) → d < 16 → is_shown (upper_hex d) ≡ true
unfolding upper_hex
upper_hex_shown d h = ascii_shown (upper_hex d) (ground arith) (ground arith)

two : (xs ys : List ℕ) → all_shown xs ≡ true → all_shown ys ≡ true → all_shown (xs ++ ys) ≡ true
two = all-append is_shown

hex_from_shown : (fuel n : ℕ) → all_shown (hex_from fuel n) ≡ true
unfolding hex_from
hex_from_shown zero n = refl
hex_from_shown (suc fuel) n = elim (Bool-cases (ltb n 16)) [
  | inl e ↦ rw e (rw (upper_hex_shown n (ground (arith, e))) refl)
  | inr e ↦ rw e (
      two (hex_from fuel (n / 16)) (upper_hex (n % 16) ∷ []) (hex_from_shown fuel (n / 16))
        (rw (upper_hex_shown (n % 16) (omega arith)) refl))
]

zeros_shown : (k : ℕ) → all_shown (replicate k b'0') ≡ true
unfolding is_control is_format in_ranges
zeros_shown zero = refl
zeros_shown (suc k) = zeros_shown k

escaped_shown : (r : ℕ) → all_shown (escaped r) ≡ true
unfolding escaped
escaped_shown r =
    let digits = hex_from (suc r) r in
    two (codes "\\u{") _ (unfold is_control is_format in_ranges in refl) (
      two (replicate (4 - length digits) b'0') _ (zeros_shown (4 - length digits)) (
        two digits (codes "}") (hex_from_shown (suc r) r)
          (unfold is_control is_format in_ranges in refl)))

visible_shown : (s : List ℕ) → all_shown (visible s) ≡ true
unfolding visible
visible_shown [] = refl
visible_shown (r ∷ s) = elim (Bool-cases (is_control r || is_format r)) [
  | inl e ↦ rw e (two (escaped r) (visible s) (escaped_shown r) (visible_shown s))
  | inr e ↦ rw e (rw e (visible_shown s))
]

digits_shown : (s : List ℕ) → All (λ c. within b'0' b'9' c ≡ true) s → all_shown s ≡ true
digits_shown [] h = refl
digits_shown (c ∷ s) (d, h) =
    rw (ascii_shown c (ground (arith, d)) (ground (arith, d))) (digits_shown s h)

cut_note_shown : (parts : PreviewParts) → all_shown (cut_note parts) ≡ true
unfolding cut_note is_control is_format in_ranges
cut_note_shown parts =
    if_rule (λ s. all_shown s ≡ true) parts.was_cut _ _
      (λ _.
        two (itoa parts.total) (codes " characters)")
          (digits_shown (itoa parts.total) (itoa_digits parts.total)) refl)
      (λ _. refl)

-- Every title, message and label of a dialog is made of visible runes, whatever the host, the session,
-- the row's name and the typed text are: no control and no format character is in it.
pub dialog_for_shown :
    (session host row_name text : List ℕ) (row pane_id : Bytes)
    → let d = dialog_for session host row_name text row pane_id in
      (all_shown d.title ≡ true)
      × (all_shown d.message ≡ true)
      × (all (λ b. all_shown b.label) d.buttons ≡ true)
unfolding dialog_for is_control is_format in_ranges
dialog_for_shown session host row_name text row pane_id =
    let parts = preview_parts text in
    let shown_host = visible_shown host in
    (
      two (visible host) _ shown_host
          (two (visible row_name) (close_name ∷ []) (visible_shown row_name) refl),
      two (visible session) _ (visible_shown session) (
          two (visible host) _ shown_host
            (two (visible parts.shown) _ (visible_shown parts.shown) (cut_note_shown parts))),
      rw (two (visible host) (codes " here until it closes") shown_host refl) refl,
    )
