-- ===== src/Proxy/Tree.antt =====
-- internal/agterm/ctl.go (the rows of the tree) and internal/proxy/policy.go: the panes of a row, the
-- programs in them, and the bindings that hold them. Ids compare by their ASCII lower case.
use agterm_remote.Bindings.{Binding}
use agterm_remote.Prelude.{
  Bool, List, Option, [], all, false, filter, find, find_last, if◌then◌else◌, none, not, replicate,
  some, true, within, ℕ, ◌&&◌, ◌++◌, ◌==◌, ◌||◌, ◌∷◌,
}
use agterm_remote.Text.{Bytes, bytes_eq, codes, contains, equal_fold}
use mathlib.Core.List.{reverse}
use mathlib.Core.Option

pub record Surface : Type 0 where
  pub kind : Bytes
  pub pane_id : Bytes
  pub visible : Bool

-- `TreeRow` without the overlays, which the policy does not read.
pub record TreeRow : Type 0 where
  pub id : Bytes
  pub name : Bytes
  pub surfaces : List Surface
  pub has_split : Bool
  pub foreground : List Bytes
  pub foreground_shell : Bytes
  pub split_foreground : List Bytes
  pub split_foreground_shell : Bytes

abbrev pub default_agents : List Bytes
default_agents = codes "claude" ∷ codes "codex" ∷ []

unfoldable pub is_pane : Surface → Bool
is_pane s = bytes_eq s.kind (codes "left") || bytes_eq s.kind (codes "right")

unfoldable pub panes : TreeRow → List Surface
panes row = filter is_pane row.surfaces

unfoldable pub surface_by_id : TreeRow → Bytes → Option Surface
surface_by_id row id = find (λ s. equal_fold s.pane_id id) row.surfaces

pub record Program : Type 0 where
  pub argv : List Bytes
  pub shell : Bytes

unfoldable pub foreground_of : TreeRow → Bytes → Option Program
foreground_of row kind =
    if bytes_eq kind (codes "left")
    then some (record { argv = row.foreground; shell = row.foreground_shell })
    else if bytes_eq kind (codes "right") && row.has_split
    then some (record { argv = row.split_foreground; shell = row.split_foreground_shell })
    else none

-- `path.Base`
drop_slashes : Bytes → Bytes
drop_slashes [] = []
drop_slashes (c ∷ s) = let rest = drop_slashes s in if c == b'/' then rest else c ∷ s

last_part : Bytes → Bytes → Bytes
last_part cur [] = cur
last_part cur (c ∷ s) = last_part (if c == b'/' then [] else cur ++ c ∷ []) s

trim_right : Bytes → Bytes
unfolding drop_slashes
trim_right s = reverse (drop_slashes (reverse s))

base_of : Bytes → Bytes
base_of [] = codes "/"
base_of (c ∷ s) = c ∷ s

unfoldable pub path_base : Bytes → Bytes
unfolding trim_right last_part base_of
path_base [] = codes "."
path_base (c ∷ s) = base_of (last_part [] (trim_right (c ∷ s)))

-- The flags of `agr open` that take a value.
is_valued_flag : Bytes → Bool
is_valued_flag w =
    contains (codes "--cwd" ∷ codes "--parent" ∷ codes "--command" ∷ codes "--orchestrator" ∷ []) w

-- The positionals of `agr open`; `none` where a flag lacks its value.
unfoldable pub open_positionals : List Bytes → Option (List Bytes)
unfolding is_valued_flag
open_positionals [] = some []
open_positionals (w ∷ []) = if is_valued_flag w then none else some (w ∷ [])
open_positionals (w ∷ v ∷ rest) =
    let skipped = open_positionals rest in
    let taken = Option.map (λ ws. w ∷ ws) (open_positionals (v ∷ rest)) in
    if is_valued_flag w then skipped else taken

abbrev names_session : Binding → List Bytes → Bool
names_session b [] = false
names_session b (host ∷ []) = bytes_eq host b.host
names_session b (host ∷ name ∷ _) = bytes_eq host b.host && bytes_eq name b.name

abbrev names_open : Binding → List Bytes → Bool
names_open b (program ∷ verb ∷ arg ∷ args) =
    (bytes_eq (path_base program) (codes "agr") && bytes_eq verb (codes "open"))
    && elim (open_positionals (arg ∷ args)) [ none ↦ false | some ws ↦ names_session b ws ]
names_open b _ = false

-- Whether the pane of `b` still runs `agr open` for `b`.
unfoldable pub attached : TreeRow → Binding → Bool
attached row b = elim (surface_by_id row b.pane_id) [
  | none ↦ false
  | some surface ↦ elim (foreground_of row surface.kind) [
    | none ↦ false
    | some program ↦ names_open b program.argv
  ]
]

pub data AgentError : Type 0 where
  no_program : Bytes → AgentError
  at_shell : Bytes → AgentError
  unknown_program : AgentError
  other_program : Bytes → AgentError

is_agent : List Bytes → List Bytes → Bytes → Option AgentError
is_agent agents [] shell = some (if bytes_eq shell [] then unknown_program else at_shell shell)
is_agent agents (program ∷ args) shell =
    if contains agents (path_base program) then none else some (other_program (path_base program))

-- `none` where the program rule lets the surface be typed into.
unfoldable pub agent_running : List Bytes → TreeRow → Bytes → Option AgentError
unfolding is_agent
agent_running agents row kind = elim (foreground_of row kind) [
  | none ↦ some (no_program kind)
  | some program ↦ is_agent agents program.argv program.shell
]

-- `uuidPattern`: the lengths of its groups of hexadecimal digits.
is_hex : ℕ → Bool
is_hex c = within b'0' b'9' c || within b'a' b'f' c || within b'A' b'F' c

hex_group : ℕ → List Bool
hex_group n = replicate n true

uuid_shape : List Bool
unfolding hex_group
uuid_shape =
    hex_group 8
    ++ (false
        ∷ (hex_group 4
            ++ (false ∷ (hex_group 4 ++ (false ∷ (hex_group 4 ++ (false ∷ hex_group 12)))))))

matches : List Bool → Bytes → Bool
unfolding is_hex
matches [] [] = true
matches (hexadecimal ∷ shape) (c ∷ s) =
    (if hexadecimal then is_hex c else c == b'-') && matches shape s
matches _ _ = false

unfoldable pub is_uuid : Bytes → Bool
unfolding matches uuid_shape
is_uuid s = matches uuid_shape s

-- `w.rows[key(id)]` and `w.bound[key(id)]`: a later row or binding replaces an earlier one.
unfoldable pub row_at : List TreeRow → Bytes → Option TreeRow
row_at rows id = find_last (λ r. equal_fold r.id id) rows

unfoldable pub bound_at_pane : List Binding → Bytes → Option Binding
bound_at_pane all id = find_last (λ b. not (bytes_eq b.pane_id []) && equal_fold b.pane_id id) all
