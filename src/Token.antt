-- ===== src/Token.antt =====
-- internal/token/token.go: the values that may cross the boundary to a shell, an SSH destination or
-- a cache path. The digest of `FileKey` is a parameter.
pub mod Safe
pub mod Key
mod Tests
use agterm_remote.Prelude.{
  Bool, [], all, false, if◌then◌else◌, ltb, not, take, within, ℕ, ◌%◌, ◌++◌, ◌+◌, ◌-◌, ◌/◌, ◌==◌,
  ◌||◌, ◌∷◌,
}
use agterm_remote.Text.{Bytes, bytes_eq, codes, has_byte}

unfoldable pub valid_char : ℕ → Bool
valid_char c =
    within b'A' b'Z' c
    || within b'a' b'z' c
    || within b'0' b'9' c
    || c == b'_'
    || c == b'.'
    || c == b'-'

-- The empty string is refused before its first byte is read.
unfoldable pub valid : Bytes → Bool
unfolding valid_char
valid [] = false
valid (c ∷ s) = if c == b'-' || c == b'.' then false else all valid_char (c ∷ s)

unfoldable pub valid_state : Bytes → Bool
valid_state s =
    bytes_eq s (codes "idle")
    || bytes_eq s (codes "active")
    || bytes_eq s (codes "completed")
    || bytes_eq s (codes "blocked")

unfoldable pub is_shell_meta : ℕ → Bool
is_shell_meta c = has_byte c (codes "\\'\"`$;&|()<>*?[]{}!#~")

abbrev pub host_char : ℕ → Bool
host_char c = not (ltb c 0x21 || ltb 0x7e c || is_shell_meta c)

unfoldable pub valid_host : Bytes → Bool
unfolding is_shell_meta
valid_host [] = false
valid_host (c ∷ s) = if c == b'-' then false else all host_char (c ∷ s)

hex_digit : ℕ → ℕ
hex_digit n = if ltb n 10 then b'0' + n else b'a' + (n - 10)

unfoldable pub hex : Bytes → Bytes
unfolding hex_digit
hex [] = []
hex (b ∷ bs) = hex_digit (b / 16) ∷ hex_digit (b % 16) ∷ hex bs

unfoldable pub sanitized : Bytes → Bytes
unfolding valid_char
sanitized [] = []
sanitized (c ∷ s) = (if valid_char c then c else b'_') ∷ sanitized s

unfoldable pub file_key : (Bytes → Bytes) → Bytes → Bytes
unfolding sanitized hex
file_key sha256 host = sanitized host ++ b'-' ∷ hex (take 6 (sha256 host))
