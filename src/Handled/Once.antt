-- ===== src/Handled/Once.antt =====
-- internal/handled/store.go: what later hooks are told of a pane that one hook has claimed.

use agterm_remote.Handled.{
  Claim, ClaimError, Codec, Hook, answers, claim, claimed_at, empty_pane, is_kept, load,
  lock_failed, on_loaded, or_empty, prune, pruned, read_failed, record_claim, write, write_failed,
}
use agterm_remote.Handled.Kept.{All-IsKey-append, IsJson, IsKey, claimed_at-new}
use agterm_remote.Handled.Recorded.{AllNotNew, Later, Recorded, answers-NotNew, written}
use agterm_remote.Prelude.{
  All, All-filter, Bool, List, Option, [], ap, arith, false, if_cases, if◌then◌else◌, inl, inr,
  is_nil, is_none, none, not, refl, some, subst, sym, true, ◌++◌, ◌∷◌, ◌≡◌,
}
use agterm_remote.Result.{Result, err, ok, ok-injective}
use agterm_remote.Text.{Bytes}
use agterm_remote.Utf8.{is_utf8}
use mathlib.Core.Bool.{false≢true}

module _ {File : Type 0} (json : Codec File) (laws : IsJson json) (h : Hook) where
  abbrev Says : Option File → Result ClaimError Bool × Option File → Type 0
  Says d' out = out ≡ (ok false, d')

  or_empty-IsKey :
      (o : Option (List Claim)) (f : File) → json.decode f ≡ o → All IsKey (or_empty json o)
  or_empty-IsKey none f e = tt
  or_empty-IsKey (some cs) f e = laws.decode_keys f cs e

  load-IsKey : (d : Option File) {cs : List Claim} → load json h d ≡ ok cs → All IsKey cs
  unfolding load
  load-IsKey none e = subst (All IsKey) (ok-injective e) tt
  load-IsKey (some f) {cs} e =
      elim (if_cases (λ x. x ≡ ok cs) h.readable (ok (or_empty json (json.decode f)))
        (err read_failed) e) [
          | inl (_, r) ↦ subst (All IsKey) (ok-injective r) (or_empty-IsKey (json.decode f) f refl)
          | inr (_, r) ↦ cc
        ]

  pruned-IsKey :
      (o : Option (List Bytes)) (cs : List Claim)
      → h.live ≡ o
      → All IsKey cs
      → All IsKey (pruned json h cs)
  unfolding prune
  pruned-IsKey none cs e ks = rw e ks
  pruned-IsKey (some live) cs e ks = rw e (All-filter IsKey (is_kept live h.now) cs ks)

  absent : {A : Type 0} (o : Option A) → is_none o ≡ true → o ≡ none
  absent none e = refl
  absent (some x) e = absurd (false≢true e)

  -- An answer that was written.
  write-ok :
      (answer b : Bool) (cs : List Claim) (d d' : Option File)
      → write json h answer cs d ≡ (ok b, d')
      → (answer ≡ b) × (d' ≡ some (json.encode cs))
  write-ok answer b cs d d' e =
      elim (if_cases (λ x. x ≡ (ok b, d')) h.writable (ok answer, some (json.encode cs))
        (err write_failed, d) e) [
          | inl (_, q) ↦ (ok-injective (ap (λ x. x.0) q), sym (ap (λ x. x.1) q))
          | inr (_, q) ↦ cc
        ]

  new-Recorded :
      (cs : List Claim) (d d' : Option File)
      → is_utf8 h.pane ≡ true
      → All IsKey cs
      → Says d' (record_claim json h cs d)
      → Recorded json laws h.pane h.now d'
  new-Recorded cs d d' u ks e =
      let new = cs ++ record { pane = h.pane; at = h.now } ∷ [] in
      elim (if_cases (Says d') (is_none (claimed_at h.pane cs)) (write json h false new d)
        (write json h true cs d) e) [
          | inr (n, w) ↦ absurd (false≢true (sym (write-ok true false cs d d' w).0))
          | inl (n, w) ↦
              subst (Recorded json laws h.pane h.now) (sym (write-ok false false new d d' w).1) (
                written json laws h.pane h.now h.now new (All-IsKey-append cs _ ks u)
                  (claimed_at-new h.pane h.now cs (absent (claimed_at h.pane cs) n)) (omega arith))
        ]

  on_loaded-Recorded :
      (d d' : Option File) (l : Result ClaimError (List Claim))
      → load json h d ≡ l
      → is_utf8 h.pane ≡ true
      → Says d' (on_loaded json h l d)
      → Recorded json laws h.pane h.now d'
  on_loaded-Recorded d d' (err x) q u e = cc
  on_loaded-Recorded d d' (ok cs) q u e =
      new-Recorded (pruned json h cs) d d' u (pruned-IsKey h.live cs refl (load-IsKey d q)) e

  claim-Recorded :
      (d d' : Option File)
      → is_utf8 h.pane ≡ true
      → Says d' (claim json h d)
      → Recorded json laws h.pane h.now d'
  unfolding claim
  claim-Recorded d d' u e =
      let body = on_loaded json h (load json h d) d in
      elim (if_cases (Says d') (is_nil h.pane) (err empty_pane, d)
        (if not h.lockable then (err lock_failed, d) else body) e) [
          | inl (_, q) ↦ cc
          | inr (_, q) ↦ elim (if_cases (Says d') (not h.lockable) (err lock_failed, d) body q) [
            | inl (_, q') ↦ cc
            | inr (_, q') ↦ on_loaded-Recorded d d' (load json h d) refl u q'
          ]
        ]

  -- Where a hook is told that its pane, a valid UTF-8 text, is new, no hook that runs later is told so
  -- of that pane, whatever succeeds or fails in it, if the pane stays claimed: each later hook reads
  -- no tree, or a tree with the pane, or runs at most the grace after the first one. Pane ids of
  -- later hooks are valid UTF-8, and JSON reads back what it writes.
  pub answers-claim :
      (hs : List Hook) (d d' : Option File)
      → is_utf8 h.pane ≡ true
      → claim json h d ≡ (ok false, d')
      → All (Later json laws h.pane h.now) hs
      → AllNotNew h.pane hs (answers json hs d')
  answers-claim hs d d' u e later =
      answers-NotNew json laws h.pane h.now hs d' later (claim-Recorded d d' u e)
