-- ===== src/Token/Key.antt =====
-- internal/token/token.go: `FileKey`.
use agterm_remote.Prelude.{
  All, [], all, all-append, append_cancel, arith, length, refl, suc, take, true, zero, ℕ, ◌+◌, ◌<◌,
  ◌∷◌, ◌≡◌, ◌≤◌,
}
use agterm_remote.Text.{Bytes}
use agterm_remote.Token.{file_key, hex, sanitized, valid_char}

abbrev pub AllBytes : Bytes → Type 0
AllBytes = All (λ b. b < 256)

hex_valid : (s : Bytes) → AllBytes s → all valid_char (hex s) ≡ true
unfolding hex valid_char
hex_valid [] h = refl
hex_valid (b ∷ s) (lt, h) = ground (arith, hex_valid s h)

sanitized_valid : (s : Bytes) → all valid_char (sanitized s) ≡ true
unfolding sanitized
sanitized_valid [] = refl
sanitized_valid (c ∷ s) = ground (arith, sanitized_valid s)

take-AllBytes : (n : ℕ) (s : Bytes) → AllBytes s → AllBytes (take n s)
take-AllBytes zero s h = tt
take-AllBytes (suc n) [] h = tt
take-AllBytes (suc n) (b ∷ s) (p, h) = (p, take-AllBytes n s h)

length-hex : (s : Bytes) → length (hex s) ≡ length s + length s
unfolding hex
length-hex [] = refl
length-hex (b ∷ s) = omega (arith, length-hex s)

length-take : (n : ℕ) (s : Bytes) → n ≤ length s → length (take n s) ≡ n
length-take zero s h = refl
length-take (suc n) [] h = absurd (omega arith)
length-take (suc n) (b ∷ s) h = omega (arith, length-take n s)

hex_injective : (s t : Bytes) → AllBytes s → AllBytes t → hex s ≡ hex t → s ≡ t
unfolding hex
hex_injective [] [] hs ht e = refl
hex_injective [] (b ∷ t) hs ht e = cc
hex_injective (a ∷ s) [] hs ht e = cc
hex_injective (a ∷ s) (b ∷ t) (p, hs) (q, ht) e = ground (arith, hex_injective s t hs ht)

-- The digest: 32 bytes, as `sha256.Sum256` documents.
module _ (sha256 : Bytes → Bytes) (digest_length : (s : Bytes) → length (sha256 s) ≡ 32)
    (digest_bytes : (s : Bytes) → AllBytes (sha256 s)) where
  prefix_bytes : (s : Bytes) → AllBytes (take 6 (sha256 s))
  prefix_bytes s = take-AllBytes 6 (sha256 s) (digest_bytes s)

  length-suffix : (s : Bytes) → length (hex (take 6 (sha256 s))) ≡ 12
  length-suffix s =
      omega (arith, length-hex (take 6 (sha256 s)), length-take 6 (sha256 s), digest_length s)

  -- With a hash of 32 bytes, the key of a host is made of token characters only.
  pub file_key-valid_char : (host : Bytes) → all valid_char (file_key sha256 host) ≡ true
  unfolding file_key valid_char
  file_key-valid_char host =
      all-append valid_char (sanitized host) _ (sanitized_valid host)
        (hex_valid (take 6 (sha256 host)) (prefix_bytes host))

  -- With a hash of 32 bytes, two hosts with one key have one sanitized form and share the first
  -- six bytes of their digests.
  pub file_key_separates :
      (host other : Bytes)
      → file_key sha256 host ≡ file_key sha256 other
      → (sanitized host ≡ sanitized other) × (take 6 (sha256 host) ≡ take 6 (sha256 other))
  unfolding file_key
  file_key_separates host other e =
      let (front, back) =
        append_cancel (sanitized host) (sanitized other) _ _ e
          (omega (arith, length-suffix host, length-suffix other)) in
      (front, hex_injective _ _ (prefix_bytes host) (prefix_bytes other) (ground (arith, back)))
