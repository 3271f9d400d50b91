-- ===== src/Proxy/Leaf.antt =====
-- internal/proxy/policy.go: the leaf that an argv names, and the leaves that are refused by name.
pub mod Listed
use agterm_remote.Prelude.{
  Bool, List, Option, [], drop, false, if◌then◌else◌, length, ltb, none, some, take, true, ◌&&◌,
  ◌∷◌,
}
use agterm_remote.Proxy.Schema.{LeafSpec, allowlist}
use agterm_remote.Result.{Result, err, ok}
use agterm_remote.Text.{Bytes, bytes_eq, codes, fields}

unfoldable pub has_prefix : List Bytes → List Bytes → Bool
has_prefix argv [] = true
has_prefix [] (word ∷ prefix) = false
has_prefix (a ∷ argv) (word ∷ prefix) = bytes_eq a word && has_prefix argv prefix

abbrev refused_leaves : List (Bytes × Bytes)
refused_leaves =
    (codes "pick", codes "it opens a picker on the Mac")
    ∷ (codes "ask", codes "it opens a dialog on the Mac")
    ∷ (codes "dashboard", codes "it changes the Mac's window")
    ∷ (codes "quick", codes "it reaches the Mac's quick terminal")
    ∷ (codes "workspace", codes "workspaces are the Mac's")
    ∷ (codes "window", codes "windows are the Mac's")
    ∷ (codes "surface", codes "it acts on terminals the host does not own")
    ∷ (codes "sidebar", codes "it changes the Mac's window")
    ∷ (codes "font", codes "it changes the Mac's settings")
    ∷ (codes "keymap", codes "it changes the Mac's settings")
    ∷ (codes "hooks", codes "it runs commands on the Mac")
    ∷ (codes "config", codes "it changes the Mac's settings")
    ∷ (codes "theme", codes "it changes the Mac's settings")
    ∷ (codes "browser", codes "it reaches the Mac's browser storage")
    ∷ (codes "restore", codes "it reaches the Mac's restore state")
    ∷ (codes "terminfo", codes "it installs files")
    ∷ (codes "clipboard", codes "it reaches the Mac's clipboard")
    ∷ (codes "zmx", codes "it manages daemons on the Mac")
    ∷ (codes "session duplicate", codes "it starts a shell on the Mac")
    ∷ (codes "session select", codes "it moves the user's selection")
    ∷ (codes "session go", codes "it moves the user's selection")
    ∷ (codes "session reveal", codes "it opens Finder on the Mac")
    ∷ (codes "session move", codes "it rearranges the user's rows")
    ∷ (codes "session swap", codes "it rearranges the user's panes")
    ∷ (codes "session lead", codes "it takes the terminal's lead")
    ∷ (codes "session scratch", codes "it starts a shell on the Mac")
    ∷ (codes "session focus", codes "it moves the user's focus")
    ∷ (codes "session copy", codes "it reads the Mac's selection")
    ∷ (codes "session paste", codes "it pastes the Mac's clipboard")
    ∷ (codes "session select-all", codes "it changes the Mac's selection")
    ∷ (codes "session restart", codes "it replaces a shell on the Mac")
    ∷ (codes "session flag", codes "it changes the user's flagged set")
    ∷ (codes "session seen", codes "it changes the user's badges")
    ∷ (codes "session search", codes "it searches the Mac's scrollback")
    ∷ (codes "session background", codes "it reads an image from the Mac")
    ∷ (codes "session split close", codes "it closes a pane the host does not own")
    ∷ (codes "session overlay reload", codes "it acts on an overlay the host did not open")
    ∷ (codes "session overlay navigate", codes "it opens a browser or Finder on the Mac")
    ∷ (codes "session overlay run-job", codes "it runs a job on the Mac")
    ∷ (codes "session overlay copy", codes "it reads the Mac's clipboard")
    ∷ []

pub data LeafError : Type 0 where
  no_command : LeafError
  refused_leaf : Bytes → Bytes → LeafError
  not_listed : List Bytes → LeafError

-- the loop over the allowlist: the longest path so far
abbrev longer_than : Option LeafSpec → LeafSpec → Bool
longer_than none leaf = true
longer_than (some best) leaf = ltb (length best.path) (length leaf.path)

unfoldable pub better : List Bytes → Option LeafSpec → LeafSpec → Option LeafSpec
unfolding has_prefix
better argv best leaf =
    if has_prefix argv leaf.path && longer_than best leaf then some leaf else best

unfoldable pub best_leaf : List Bytes → Option LeafSpec → List LeafSpec → Option LeafSpec
best_leaf argv best [] = best
best_leaf argv best (leaf ∷ leaves) = best_leaf argv (better argv best leaf) leaves

refusal : List Bytes → List (Bytes × Bytes) → LeafError
unfolding has_prefix
refusal argv [] = not_listed (take 3 argv)
refusal argv ((path, why) ∷ rest) =
    if has_prefix argv (fields path) then refused_leaf path why else refusal argv rest

pub record MatchedLeaf : Type 0 where
  pub spec : LeafSpec
  pub rest : List Bytes

unfoldable pub match_leaf : List Bytes → Result LeafError MatchedLeaf
unfolding better best_leaf refusal
match_leaf [] = err no_command
match_leaf (a ∷ argv) = elim (best_leaf (a ∷ argv) none allowlist) [
  | some leaf ↦ ok (record { spec = leaf; rest = drop (length leaf.path) (a ∷ argv) })
  | none ↦ err (refusal (a ∷ argv) refused_leaves)
]
