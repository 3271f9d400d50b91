-- ===== src/Token/Tests.antt =====
-- Tests of the token rules, and their theorems at concrete inputs.
use agterm_remote.Prelude.{All, arith, false, refl, replicate, true, ℕ, ◌≡◌, ◌≢◌}
use agterm_remote.Text.{Bytes, bytes_eq, codes}
use agterm_remote.Token.{valid, valid_host, valid_state}
use agterm_remote.Token.Key.{AllBytes}
use agterm_remote.Token.Safe.{Harmless, valid-Harmless}

states_test :
    (valid_state (codes "idle") ≡ true)
    × (valid (codes "api-2") ≡ true)
    × (valid (codes "-x") ≡ false)
    × (valid_host (codes "me@box") ≡ true)
    × (valid_host (codes "a;b") ≡ false)
unfolding valid_state valid valid_host bytes_eq
states_test = (refl, refl, refl, refl, refl)

valid-Harmless_example :
    (valid_host (codes "api-2") ≡ true)
    × (◌≢◌ {A = ℕ} b'a' b'-')
    × (◌≢◌ {A = ℕ} b'a' b'.')
    × All Harmless (codes "api-2")
unfolding valid
valid-Harmless_example = valid-Harmless b'a' (codes "pi-2") refl

-- A digest of 32 zero bytes.
abbrev zero_digest : Bytes → Bytes
zero_digest s = replicate 32 0

zero_digest_bytes : (s : Bytes) → AllBytes (zero_digest s)
zero_digest_bytes s = omega arith
