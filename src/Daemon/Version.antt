-- ===== src/Daemon/Version.antt =====
-- internal/agterm/client.go: the comparison of versions; internal/daemon/proxy.go: the version check of
-- a host's calls.
mod Ordered
mod Tests
use agterm_remote.Int.{atoi, negsuc, pos, ℤ}
use agterm_remote.Prelude.{
  Bool, List, Option, [], false, if◌then◌else◌, ltb, none, not, some, true, ℕ, ◌==◌, ◌∷◌,
}
use agterm_remote.Remote.Sessions.{split}
use agterm_remote.Text.{Bytes, cut}

abbrev trim_v : Bytes → Bytes
trim_v [] = []
trim_v (c ∷ s) = if c == b'v' then s else c ∷ s

-- `strconv.Atoi` of a chunk that is not negative.
abbrev pub part_of : Option ℤ → Option ℕ
part_of none = none
part_of (some (negsuc n)) = none
part_of (some (pos n)) = some n

abbrev pub Parts : Type 0
Parts = ℕ × (ℕ × ℕ)

abbrev pub three : Option ℕ → Option ℕ → Option ℕ → Option Parts
three (some a) (some b) (some c) = some (a, (b, c))
three _ _ _ = none

-- The first three chunks at dots; the third up to a dash.
unfoldable pub parts_of : List Bytes → Option Parts
parts_of (a ∷ b ∷ c ∷ rest) =
    three (part_of (atoi a)) (part_of (atoi b)) (part_of (atoi (cut b'-' c).before))
parts_of _ = none

unfoldable pub version_parts : Bytes → Option Parts
version_parts value = parts_of (split b'.' (trim_v value))

-- The loop over the three parts.
abbrev pub parts_less : Parts → Parts → Bool
parts_less (a, (b, c)) (x, (y, z)) =
    if not (a == x)
    then ltb a x
    else if not (b == y)
    then ltb b y
    else if not (c == z)
    then ltb c z
    else false

abbrev pub less_of : Option Parts → Option Parts → Bool
less_of (some p) (some q) = parts_less p q
less_of _ _ = false

unfoldable pub version_less : Bytes → Bytes → Bool
version_less got minimum = less_of (version_parts got) (version_parts minimum)

-- The part of `hostCtl` under `verMu`: whether the version was read, and the one that is too old.
pub record Checked : Type 0 where
  pub done : Bool
  pub too_old : Option Bytes

pub data VersionRefusal : Type 0 where
  unreadable : VersionRefusal
  needs_newer : Bytes → VersionRefusal

abbrev pub old_version : Option Bytes → Option VersionRefusal
old_version none = none
old_version (some v) = some (needs_newer v)

abbrev check_read : Bytes → Checked → Option Bytes → Option VersionRefusal × Checked
check_read minimum k none = (some unreadable, k)
check_read minimum k (some v) =
    let old = if version_less v minimum then some v else none in
    (old_version old, record { done = true; too_old = old })

-- `versionRefusal`: whether there is a reader of versions, and what it reads (`none` on an error).
unfoldable pub version_refusal :
    Bytes → Bool → Option Bytes → Checked → Option VersionRefusal × Checked
version_refusal minimum has_reader reading k =
    if k.done
    then (old_version k.too_old, k)
    else if not has_reader
    then (none, record k { done = true })
    else check_read minimum k reading
