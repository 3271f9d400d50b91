-- ===== src/Handled.antt =====
-- internal/handled/store.go: the panes that a hook has acted on. A file's contents are of any type that
-- JSON writes and reads; a map is a list in which the first entry of a key counts. Times are
-- nanoseconds.
mod Kept
mod Recorded
pub mod Once
mod Tests
use agterm_remote.Prelude.{
  Bool, List, Option, [], false, filter, if◌then◌else◌, is_nil, is_none, ltb, none, not, some, true,
  ℕ, ◌++◌, ◌-◌, ◌||◌, ◌∷◌,
}
use agterm_remote.Result.{Result, err, ok}
use agterm_remote.Text.{Bytes, bytes_eq, contains}

pub record Claim : Type 0 where
  pub pane : Bytes
  pub at : ℕ

unfoldable pub prune_grace : ℕ
prune_grace = 60000000000

-- `current[id]`
unfoldable pub claimed_at : Bytes → List Claim → Option ℕ
claimed_at id [] = none
claimed_at id (c ∷ cs) = if bytes_eq c.pane id then some c.at else claimed_at id cs

-- A claim that `prune` leaves: its pane is in the snapshot, or it is not old.
abbrev pub is_kept : List Bytes → ℕ → Claim → Bool
is_kept live now c = contains live c.pane || not (ltb prune_grace (now - c.at))

unfoldable pub prune : List Bytes → ℕ → List Claim → List Claim
prune live now cs = filter (is_kept live now) cs

-- `encoding/json` on the map of claims.
pub record Codec (File : Type 0) : Type 0 where
  pub encode : List Claim → File
  pub decode : File → Option (List Claim)

pub data ClaimError : Type 0 where
  empty_pane lock_failed read_failed write_failed : ClaimError

-- One run of a hook: its pane, the panes of the tree that it read (`none` where it read none), its
-- clock, and whether its system calls succeed.
pub record Hook : Type 0 where
  pub pane : Bytes
  pub live : Option (List Bytes)
  pub now : ℕ
  pub lockable : Bool
  pub readable : Bool
  pub writable : Bool

module _ {File : Type 0} (json : Codec File) where
  -- A corrupt file is an empty one.
  abbrev or_empty : Option (List Claim) → List Claim
  or_empty none = []
  or_empty (some cs) = cs

  unfoldable pub load : Hook → Option File → Result ClaimError (List Claim)
  load h none = ok []
  load h (some f) = if h.readable then ok (or_empty (json.decode f)) else err read_failed

  abbrev pruned : Hook → List Claim → List Claim
  pruned h cs = elim h.live [ none ↦ cs | some live ↦ prune live h.now cs ]

  -- The answer where the file can be written.
  abbrev write : Hook → Bool → List Claim → Option File → Result ClaimError Bool × Option File
  write h answer cs d =
      if h.writable then (ok answer, some (json.encode cs)) else (err write_failed, d)

  -- The body of `Claim` on the pruned map.
  abbrev record_claim : Hook → List Claim → Option File → Result ClaimError Bool × Option File
  record_claim h cs d =
      if is_none (claimed_at h.pane cs)
      then write h false (cs ++ record { pane = h.pane; at = h.now } ∷ []) d
      else write h true cs d

  abbrev on_loaded :
      Hook → Result ClaimError (List Claim) → Option File → Result ClaimError Bool × Option File
  on_loaded h (err e) d = (err e, d)
  on_loaded h (ok cs) d = record_claim h (pruned h cs) d

  -- `Claim`: whether the pane was recorded before, and the file that is left.
  unfoldable pub claim : Hook → Option File → Result ClaimError Bool × Option File
  claim h d =
      if is_nil h.pane
      then (err empty_pane, d)
      else if not h.lockable
      then (err lock_failed, d)
      else on_loaded h (load h d) d

  -- The answers of hooks that take the lock in this order.
  unfoldable pub answers : List Hook → Option File → List (Result ClaimError Bool)
  answers [] d = []
  answers (h ∷ hs) d = let (answer, d') = claim h d in answer ∷ answers hs d'
