-- ===== src/Handled/Tests.antt =====
-- Tests of the claims of hooks, and their theorem at a concrete history.

use agterm_remote.Handled.{Claim, Codec, Hook, answers, claim, claimed_at, load, prune, prune_grace}
use agterm_remote.Handled.Kept.{IsJson, IsKey}
use agterm_remote.Handled.Once.{answers-claim}
use agterm_remote.Handled.Recorded.{AllNotNew}
use agterm_remote.Prelude.{
  All, List, Option, [], all, arith, false, if_cases, if◌then◌else◌, inl, inr, none, refl, some,
  subst, sym, true, ℕ, ◌*◌, ◌∷◌, ◌≡◌,
}
use agterm_remote.Result.{ok}
use agterm_remote.Text.{Bytes, bytes_eq, codes}
use agterm_remote.Utf8.{is_utf8}
use mathlib.Core.Option.{some-injective}

-- A file that holds the map itself; a map with an invalid key is no document.
abbrev plain : Codec (List Claim)
plain = record {
  encode = λ cs. cs;
  decode = λ cs. if all (λ c. is_utf8 c.pane) cs then some cs else none;
}

all-IsKey : (cs : List Claim) → all (λ c. is_utf8 c.pane) cs ≡ true → All IsKey cs
all-IsKey [] e = tt
all-IsKey (c ∷ cs) e = (ground (arith, e), all-IsKey cs (ground (arith, e)))

IsKey-all : (cs : List Claim) → All IsKey cs → all (λ c. is_utf8 c.pane) cs ≡ true
IsKey-all [] e = refl
IsKey-all (c ∷ cs) (e, es) = ground (arith, e, IsKey-all cs es)

plain-decode : (f cs : List Claim) → plain.decode f ≡ some cs → All IsKey cs
plain-decode f cs e =
    elim (if_cases (λ x. x ≡ some cs) (all (λ c. is_utf8 c.pane) f) (some f) none e) [
      | inl (a, q) ↦ subst (All IsKey) (some-injective f cs q) (all-IsKey f a)
      | inr (_, q) ↦ cc
    ]

plain-IsJson : IsJson plain
plain-IsJson = record {
  decode_keys = plain-decode;
  round_trip = λ cs ks. (cs, rw (IsKey-all cs ks), λ id. refl);
}

abbrev second : ℕ
second = 1000000000

-- A hook of the pane "p1" at a time in seconds, with the panes of its tree.
abbrev hook : Option (List Bytes) → ℕ → Hook
hook live t = record {
  pane = codes "p1";
  live = live;
  now = t * second;
  lockable = true;
  readable = true;
  writable = true;
}

-- The first hook, one whose tree lacks the pane within the grace, one whose tree has it after the
-- grace, and one that read no tree.
abbrev later_hooks : List Hook
later_hooks = hook (some []) 150 ∷ hook (some (codes "p1" ∷ [])) 900 ∷ hook none 5000 ∷ []

history_test :
    answers plain (hook none 100 ∷ later_hooks) none ≡ ok false ∷ ok true ∷ ok true ∷ ok true ∷ []
unfolding answers claim load claimed_at prune bytes_eq is_utf8 prune_grace
history_test = refl

-- After the grace, a hook whose tree lacks the pane forgets the claim.
forgotten_test :
    answers plain (hook none 100 ∷ hook (some []) 161 ∷ []) none ≡ ok false ∷ ok false ∷ []
unfolding answers claim load claimed_at prune bytes_eq is_utf8 prune_grace
forgotten_test = refl

answers-claim_example :
    AllNotNew
      (codes "p1")
      later_hooks
      (answers plain later_hooks (some (record { pane = codes "p1"; at = 100 * second } ∷ [])))
unfolding answers claim load claimed_at prune bytes_eq is_utf8 prune_grace
answers-claim_example =
    answers-claim plain plain-IsJson (hook none 100) later_hooks none
      (some (record { pane = codes "p1"; at = 100 * second } ∷ [])) refl refl
      (
        (λ live e. inr (omega arith), refl),
        (
          (λ live e. inl (rw (sym (some-injective _ _ e)) refl), refl),
          ((λ live e. absurd cc, refl), tt),
        ),
      )
