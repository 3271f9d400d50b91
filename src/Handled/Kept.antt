-- ===== src/Handled/Kept.antt =====
-- internal/handled/store.go: which claims of a map survive a pruning and an append.
use agterm_remote.Handled.{Claim, Codec, Hook, claimed_at, is_kept, prune, prune_grace}
use agterm_remote.Prelude.{
  All, All-append, Bool-cases, List, [], arith, if_rule, inl, inr, none, some, true, ℕ, ◌++◌, ◌+◌,
  ◌∷◌, ◌≡◌, ◌≤◌, ◌⊎◌,
}
use agterm_remote.Text.{Bytes, bytes_eq, bytes_eq_iff, bytes_eq_refl, contains}
use agterm_remote.Utf8.{is_utf8}
use mathlib.Core.Option.{some-injective}

abbrev pub IsKey : Claim → Type 0
IsKey c = is_utf8 c.pane ≡ true

-- What JSON documents of maps with string keys: keys are read as valid UTF-8, and a map whose keys
-- are valid UTF-8 is read back as the same map.
pub record IsJson {File : Type 0} (json : Codec File) : Type 0 where
  pub decode_keys : (f : File) (cs : List Claim) → json.decode f ≡ some cs → All IsKey cs
  pub round_trip :
      (cs : List Claim)
      → All IsKey cs
      → (cs' : List Claim) × (json.decode (json.encode cs) ≡ some cs')
        × ((id : Bytes) → claimed_at id cs' ≡ claimed_at id cs)

-- A hook that does not forget a claim of the pane made at `t0` or later: it read no tree, or one with
-- the pane, or it runs within the grace.
abbrev pub Spares : Bytes → ℕ → Hook → Type 0
Spares pane t0 h =
    (live : List Bytes)
    → h.live ≡ some live
    → (contains live pane ≡ true) ⊎ (h.now ≤ t0 + prune_grace)

kept-Spared :
    (pane : Bytes) (live : List Bytes) (now at : ℕ) (c : Claim)
    → (contains live pane ≡ true) ⊎ (now ≤ at + prune_grace)
    → bytes_eq c.pane pane ≡ true
    → some c.at ≡ some at
    → is_kept live now c ≡ true
kept-Spared pane live now at c s e h =
    let same = (bytes_eq_iff c.pane pane).0 e in
    let at_is = some-injective c.at at h in
    elim s [ inl l ↦ rw (same, l) | inr g ↦ ground (arith, at_is, g) ]

pub claimed_at-prune :
    (pane : Bytes) (live : List Bytes) (now at : ℕ) (cs : List Claim)
    → (contains live pane ≡ true) ⊎ (now ≤ at + prune_grace)
    → claimed_at pane cs ≡ some at
    → claimed_at pane (prune live now cs) ≡ some at
unfolding claimed_at prune
claimed_at-prune pane live now at [] s h = cc
claimed_at-prune pane live now at (c ∷ cs) s h = elim (Bool-cases (bytes_eq c.pane pane)) [
  | inl e ↦ rw (kept-Spared pane live now at c s e (rw e at h)) (rw e (rw e at h))
  | inr e ↦
      let rest = claimed_at-prune pane live now at cs s (rw e at h) in
      if_rule (λ ds. claimed_at pane ds ≡ some at) (is_kept live now c) _ _
        (λ _. rw (claimed_at, e) rest) (λ _. rest)
]

pub claimed_at-append :
    (pane : Bytes) (at : ℕ) (cs ds : List Claim)
    → claimed_at pane cs ≡ some at
    → claimed_at pane (cs ++ ds) ≡ some at
unfolding claimed_at
claimed_at-append pane at [] ds h = cc
claimed_at-append pane at (c ∷ cs) ds h = ground (arith, claimed_at-append pane at cs ds)

pub claimed_at-new :
    (pane : Bytes) (now : ℕ) (cs : List Claim)
    → claimed_at pane cs ≡ none
    → claimed_at pane (cs ++ record { pane = pane; at = now } ∷ []) ≡ some now
unfolding claimed_at
claimed_at-new pane now [] h = rw (bytes_eq_refl pane)
claimed_at-new pane now (c ∷ cs) h = ground (arith, claimed_at-new pane now cs)

pub All-IsKey-append :
    (cs : List Claim) (c : Claim) → All IsKey cs → IsKey c → All IsKey (cs ++ c ∷ [])
All-IsKey-append cs c ks k = All-append IsKey cs (c ∷ []) ks (k, tt)
