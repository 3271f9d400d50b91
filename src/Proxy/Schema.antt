-- ===== src/Proxy/Schema.antt =====
-- internal/proxy/policy.go and internal/proxy/argv.go: the schema of the agtermctl leaves that a
-- host may call, and the list of those leaves.
use agterm_remote.Prelude.{
  Bool, List, Option, String, [], false, find, map, none, some, true, ℕ, ◌++◌, ◌||◌, ◌∷◌,
}
use agterm_remote.Text.{Bytes, bytes_eq, codes, fields, join_with}

pub data Scope : Type 0 where
  scope_none scope_caller scope_pane scope_row : Scope

pub data PaneBy : Type 0 where
  by_id by_side : PaneBy

pub data OptRole : Type 0 where
  role_plain role_row role_pane role_side role_file role_command : OptRole

pub record OptSpec : Type 0 where
  pub name : Bytes
  pub value : Bool
  pub role : OptRole
  pub repeat : Bool
  pub allowed : List Bytes
  pub dropped : Bytes

-- The functions that the field `check` holds.
pub data Check : Type 0 where
  no_check overlay_open_check : Check

-- `max_pos` is `none` where the source has -1.
pub record LeafSpec : Type 0 where
  pub path : List Bytes
  pub scope : Scope
  pub write : Bool
  pub by : PaneBy
  pub opts : List OptSpec
  pub max_pos : Option ℕ
  pub min_pos : ℕ
  pub pos_allowed : List Bytes
  pub pos_command : Bool
  pub typing : Bool
  pub check : Check

unfoldable pub leaf_name : LeafSpec → Bytes
leaf_name leaf = join_with (codes " ") leaf.path

abbrev pub plain_flag : String → OptSpec
plain_flag name = record {
  name = codes name;
  value = false;
  role = role_plain;
  repeat = false;
  allowed = [];
  dropped = [];
}

abbrev pub plain_value : String → OptSpec
plain_value name = record (plain_flag name) { value = true }

abbrev plain_values : List String → List OptSpec
plain_values names = map plain_value names

abbrev plain_flags : List String → List OptSpec
plain_flags names = map plain_flag names

abbrev pub opt_target : OptSpec
opt_target = record (plain_value "target") { role = role_row }

abbrev pub opt_pane_id : OptSpec
opt_pane_id = record (plain_value "pane-id") { role = role_pane }

abbrev pub opt_pane : OptSpec
opt_pane = record (plain_value "pane") {
  role = role_side;
  allowed = codes "left" ∷ codes "right" ∷ codes "primary" ∷ codes "split" ∷ [];
}

abbrev opt_block : OptSpec
opt_block = plain_flag "block"

-- `--window` and `--socket` are stripped, `--json` only formats output.
abbrev pub universal_opts : List OptSpec
universal_opts = plain_value "window" ∷ plain_value "socket" ∷ plain_flag "json" ∷ []

unfoldable pub is_stripped : Bytes → Bool
is_stripped name = bytes_eq name (codes "window") || bytes_eq name (codes "socket")

-- `leaf.option(name)`: the leaf's options first, then those that every leaf has.
unfoldable pub option : LeafSpec → Bytes → Option OptSpec
option leaf name = find (λ spec. bytes_eq spec.name name) (leaf.opts ++ universal_opts)

abbrev hud_opts : List OptSpec
hud_opts =
    plain_values (
      "font-size" ∷ "detail" ∷ "spinner-style" ∷ "position" ∷ "background-color" ∷ "text-color"
      ∷ "size-percent" ∷ "hide-after" ∷ [])
    ++ (plain_flags ("markdown" ∷ "spinner" ∷ "sticky" ∷ "no-frame" ∷ [])
        ++ (opt_target ∷ opt_pane ∷ opt_pane_id ∷ []))

-- The zero value of a leaf, with its path, its limit on positionals and its options.
abbrev leaf_of : String → ℕ → List OptSpec → LeafSpec
leaf_of path most opts = record {
  path = fields (codes path);
  scope = scope_none;
  write = false;
  by = by_id;
  opts = opts;
  max_pos = some most;
  min_pos = 0;
  pos_allowed = [];
  pos_command = false;
  typing = false;
  check = no_check;
}

abbrev pane_leaf : PaneBy → LeafSpec → LeafSpec
pane_leaf by leaf = record leaf { scope = scope_pane; by = by }

abbrev row_leaf : LeafSpec → LeafSpec
row_leaf leaf = record leaf { scope = scope_row; write = true }

abbrev needs_one : LeafSpec → LeafSpec
needs_one leaf = record leaf { min_pos = 1 }

abbrev writes : LeafSpec → LeafSpec
writes leaf = record leaf { write = true }

abbrev allowlist_read : List LeafSpec
allowlist_read =
    leaf_of "version" 0 []
    ∷ record (leaf_of "help" 0 []) { max_pos = none }
    ∷ leaf_of "tree" 0 []
    ∷ leaf_of "events" 0 (plain_values ("kind" ∷ "run" ∷ "after" ∷ "limit" ∷ []))
    ∷ pane_leaf by_id (
        leaf_of "session text" 0
          (plain_flag "all" ∷ plain_value "lines" ∷ opt_target ∷ opt_pane ∷ opt_pane_id ∷ []))
    ∷ pane_leaf by_side (
        leaf_of "session overlay result" 0
          (plain_value "page" ∷ opt_block ∷ opt_target ∷ opt_pane ∷ []))
    ∷ pane_leaf by_side (
        leaf_of "session overlay text" 0
          (plain_flag "all" ∷ plain_value "lines" ∷ opt_target ∷ opt_pane ∷ []))
    ∷ []

abbrev overlay_opts : List OptSpec
overlay_opts =
    record (plain_value "html") { role = role_file }
    ∷ plain_value "url"
    ∷ (plain_flags ("js" ∷ "wait" ∷ [])
        ++ (plain_values ("size-percent" ∷ "width" ∷ "height" ∷ "background-color" ∷ [])
            ++ (opt_block
                ∷ opt_target
                ∷ opt_pane
                ∷ record (plain_flag "follow") {
                  dropped = codes "it would move the user's selection";
                }
                ∷ [])))

abbrev allowlist_rows : List LeafSpec
allowlist_rows =
    record (writes (
      pane_leaf by_id
        (leaf_of "session type" 1 (plain_flag "stdin" ∷ opt_target ∷ opt_pane_id ∷ [])))) {
          typing = true;
        }
    ∷ record (row_leaf (
        needs_one (
          leaf_of "session status" 1 (
            plain_flags ("blink" ∷ "auto-reset" ∷ [])
            ++ (plain_values ("sound" ∷ "color" ∷ "shape" ∷ [])
                ++ (opt_target ∷ opt_pane ∷ opt_pane_id ∷ [])))))) {
                  pos_allowed =
                      codes "idle" ∷ codes "active" ∷ codes "completed" ∷ codes "blocked" ∷ [];
                }
    ∷ row_leaf (leaf_of "session context" 1 (plain_flag "clear" ∷ opt_target ∷ []))
    ∷ row_leaf (needs_one (leaf_of "session rename" 1 (opt_target ∷ [])))
    ∷ row_leaf (needs_one (leaf_of "session hud" 1 hud_opts))
    ∷ row_leaf (needs_one (leaf_of "session hud open" 1 hud_opts))
    ∷ row_leaf (needs_one (leaf_of "session hud update" 1 hud_opts))
    ∷ row_leaf (leaf_of "session hud close" 0 (opt_target ∷ opt_pane ∷ opt_pane_id ∷ []))
    ∷ []

abbrev allowlist_overlay : List LeafSpec
allowlist_overlay =
    record (writes (pane_leaf by_side (leaf_of "session overlay open" 1 overlay_opts))) {
      pos_command = true;
      check = overlay_open_check;
    }
    ∷ writes (pane_leaf by_side (leaf_of "session overlay close" 0 (opt_target ∷ opt_pane ∷ [])))
    ∷ writes (
        pane_leaf by_side
          (leaf_of "session overlay submit" 0 (plain_value "value" ∷ opt_target ∷ opt_pane ∷ [])))
    ∷ row_leaf (
        leaf_of "session overlay resize" 0
          (plain_value "size-percent" ∷ plain_flag "full" ∷ opt_target ∷ []))
    ∷ []

abbrev allowlist_session : List LeafSpec
allowlist_session =
    leaf_of "session new" 0 (
      plain_values ("name" ∷ "cwd" ∷ "workspace" ∷ [])
      ++ (plain_flags ("no-select" ∷ "wait" ∷ [])
          ++ (record (plain_value "command") { role = role_command } ∷ [])))
    ∷ row_leaf (leaf_of "session close" 0 (record opt_target { repeat = true } ∷ []))
    ∷ record (writes (
        pane_leaf by_id (
          leaf_of "session restore" 1
            (plain_flags ("none" ∷ "clear" ∷ []) ++ (opt_target ∷ opt_pane ∷ opt_pane_id ∷ []))))) {
              pos_command = true;
            }
    ∷ record (writes (needs_one (leaf_of "notify" 1 (plain_value "title" ∷ opt_target ∷ [])))) {
      scope = scope_caller;
    }
    ∷ record (row_leaf
        (needs_one (leaf_of "session split visibility" 1 (plain_value "axis" ∷ opt_target ∷ [])))) {
          pos_allowed = codes "on" ∷ codes "off" ∷ [];
        }
    ∷ []

-- Every leaf, in the order of the source.
abbrev pub allowlist : List LeafSpec
allowlist = allowlist_read ++ (allowlist_rows ++ (allowlist_overlay ++ allowlist_session))
