-- ===== src/Token/Safe.antt =====
-- internal/token/token.go: the bytes of a valid token.
use agterm_remote.Prelude.{
  All, [], all, all-append, arith, false, refl, true, within, ℕ, ◌++◌, ◌∷◌, ◌≡◌, ◌≢◌, ◌≤◌,
}
use agterm_remote.Text.{Bytes, itoa, itoa_digits}
use agterm_remote.Token.{host_char, is_shell_meta, valid, valid_char, valid_host}

-- A byte that no path separator, control byte or shell metacharacter is.
abbrev pub Harmless : ℕ → Type 0
Harmless c = (0x21 ≤ c) × (c ≤ 0x7e) × (c ≢ b'/') × (is_shell_meta c ≡ false)

valid_char-Harmless : (c : ℕ) → valid_char c ≡ true → Harmless c
unfolding valid_char is_shell_meta
valid_char-Harmless c h = ground arith

all-Harmless : (s : Bytes) → all valid_char s ≡ true → All Harmless s
all-Harmless [] h = tt
all-Harmless (c ∷ s) h = (valid_char-Harmless c (ground arith), all-Harmless s (ground arith))

Harmless-host : (s : Bytes) → All Harmless s → all host_char s ≡ true
Harmless-host [] h = refl
Harmless-host (c ∷ s) (p, h) = ground (arith, Harmless-host s h)

-- A valid token is also a valid SSH destination, begins with no option or hidden-file marker, and
-- holds no blank, control byte, path separator or shell metacharacter.
pub valid-Harmless :
    (c : ℕ) (s : Bytes)
    → valid (c ∷ s) ≡ true
    → (valid_host (c ∷ s) ≡ true) × (c ≢ b'-') × (c ≢ b'.') × All Harmless (c ∷ s)
unfolding valid valid_host
valid-Harmless c s h =
    let chars : all valid_char (c ∷ s) ≡ true = ground arith in
    let safe = all-Harmless (c ∷ s) chars in
    (ground (arith, Harmless-host (c ∷ s) safe), ground arith, ground arith, safe)

digit-valid_char : (s : Bytes) → All (λ c. within b'0' b'9' c ≡ true) s → all valid_char s ≡ true
unfolding valid_char
digit-valid_char [] h = refl
digit-valid_char (c ∷ s) (p, h) = ground (arith, digit-valid_char s h)

numbered-all :
    (s : Bytes) (n : ℕ) → all valid_char s ≡ true → all valid_char (s ++ b'-' ∷ itoa n) ≡ true
unfolding valid_char
numbered-all s n h =
    all-append valid_char s (b'-' ∷ itoa n) h (digit-valid_char (itoa n) (itoa_digits n))

-- A valid token with a dash and a number behind it is a valid token.
pub valid-numbered : (s : Bytes) (n : ℕ) → valid s ≡ true → valid (s ++ b'-' ∷ itoa n) ≡ true
unfolding valid
valid-numbered [] n h = cc
valid-numbered (c ∷ s) n h = ground (arith, numbered-all (c ∷ s) n)
