-- ===== src/Remote/Sessions/Split.antt =====
-- internal/remote/sessions.go: splitting and trimming of texts that lack the separator.
use agterm_remote.Prelude.{
  All, [], all, ap, arith, false, if_cases, inl, inr, is_nil, ltb, refl, true, within, ℕ, ◌++◌,
  ◌==◌, ◌||◌, ◌∷◌, ◌≡◌,
}
use agterm_remote.Proxy.Frames.{first}
use agterm_remote.Remote.Sessions.{put_first, split, trim_newline}
use agterm_remote.Text.{Bytes, has_byte}
use agterm_remote.Token.{valid, valid_char}
use mathlib.Core.Bool.{false≢true}

pub split-append :
    (sep : ℕ) (w s : Bytes) → has_byte sep w ≡ false → split sep (w ++ sep ∷ s) ≡ w ∷ split sep s
unfolding split
split-append sep [] s h = ground arith
split-append sep (c ∷ w) s h =
    let (n, m) : (c == sep ≡ false) × (has_byte sep w ≡ false) =
      (ground (arith, h), ground (arith, h)) in
    rw n (ap (put_first c) (split-append sep w s m))

pub split_self : (sep : ℕ) (w : Bytes) → has_byte sep w ≡ false → split sep w ≡ w ∷ []
unfolding split
split_self sep [] h = refl
split_self sep (c ∷ w) h =
    let (n, m) : (c == sep ≡ false) × (has_byte sep w ≡ false) =
      (ground (arith, h), ground (arith, h)) in
    rw n (ap (put_first c) (split_self sep w m))

pub not_nil : (w : Bytes) (d : ℕ) (s : Bytes) → is_nil (w ++ d ∷ s) ≡ false
not_nil [] d s = refl
not_nil (c ∷ w) d s = refl

pub trim_newline-append :
    (w : Bytes) (c : ℕ) (u : Bytes)
    → is_nil u ≡ false
    → trim_newline (w ++ c ∷ u) ≡ w ++ c ∷ trim_newline u
unfolding trim_newline
trim_newline-append [] c u h = rw h refl
trim_newline-append (x ∷ w) c u h =
    rw (not_nil w c u) (ap (λ l. x ∷ l) (trim_newline-append w c u h))

pub trim_newline_end : (w : Bytes) → trim_newline (w ++ b'\n' ∷ []) ≡ w
unfolding trim_newline
trim_newline_end [] = refl
trim_newline_end (x ∷ w) = rw (not_nil w b'\n' []) (ap (λ l. x ∷ l) (trim_newline_end w))

pub has_byte-append :
    (b : ℕ) (s t : Bytes)
    → has_byte b s ≡ false
    → has_byte b t ≡ false
    → has_byte b (s ++ t) ≡ false
has_byte-append b [] t h k = k
has_byte-append b (c ∷ s) t h k = ground (arith, has_byte-append b s t)

pub digits_lack :
    (b : ℕ) (s : Bytes)
    → ltb b b'0' ≡ true
    → All (λ c. within b'0' b'9' c ≡ true) s
    → has_byte b s ≡ false
digits_lack b [] l h = refl
digits_lack b (c ∷ s) l (d, h) =
    let other : c == b ≡ false = ground (arith, l, d) in rw other (digits_lack b s l h)

chars_lack :
    (b : ℕ) (s : Bytes) → ltb b b'-' ≡ true → all valid_char s ≡ true → has_byte b s ≡ false
unfolding valid_char
chars_lack b [] l h = refl
chars_lack b (c ∷ s) l h =
    let (first, rest) : (valid_char c ≡ true) × (all valid_char s ≡ true) =
      (ground (arith, h), ground (arith, h)) in
    let other : c == b ≡ false = ground (arith, l, first) in rw other (chars_lack b s l rest)

pub name_lacks : (b : ℕ) (s : Bytes) → ltb b b'-' ≡ true → valid s ≡ true → has_byte b s ≡ false
unfolding valid
name_lacks b [] l h = refl
name_lacks b (c ∷ s) l h =
    elim (if_cases (λ x. x ≡ true) (c == b'-' || c == b'.') false (all valid_char (c ∷ s)) h) [
      | inl (_, e) ↦ absurd (false≢true e)
      | inr (_, e) ↦ chars_lack b (c ∷ s) l e
    ]
