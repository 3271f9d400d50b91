-- ===== src/Proxy/Call.antt =====
-- internal/proxy/policy.go: an authorized call, and the argv that it is rendered to.
use agterm_remote.Prelude.{
  Bool, List, Option, [], any, false, if◌then◌else◌, map, none, some, ℕ, ◌++◌, ◌∷◌,
}
use agterm_remote.Proxy.Schema.{PaneBy, by_id, by_side}
use agterm_remote.Text.{Bytes, bytes_eq, codes, starts_with}

-- The kinds of option that `Opt.Role` distinguishes.
pub data CallRole : Type 0 where
  plain_opt file_opt command_opt : CallRole

pub record Opt : Type 0 where
  pub name : Bytes
  pub value : Bytes
  pub flag : Bool
  pub role : CallRole

pub record Target : Type 0 where
  pub row : Bytes
  pub pane_id : Bytes
  pub side : Bytes
  pub whole_row : Bool

pub record FileRef : Type 0 where
  pub opt : Bytes
  pub index : ℕ

-- `pane_by` is `none` where no pane is passed.
pub record Call : Type 0 where
  pub leaf : Bytes
  pub path : List Bytes
  pub opts : List Opt
  pub pos : List Bytes
  pub targets : List Target
  pub pane_by : Option PaneBy
  pub files : List FileRef
  pub command : List Bytes
  pub command_opt : Bytes
  pub block : Bool
  pub granted : Bool
  pub help : Bool
  pub warnings : List Bytes

-- The zero value.
abbrev pub no_call : Call
no_call = record {
  leaf = [];
  path = [];
  opts = [];
  pos = [];
  targets = [];
  pane_by = none;
  files = [];
  command = [];
  command_opt = [];
  block = false;
  granted = false;
  help = false;
  warnings = [];
}

abbrev pub valued : Bytes → Bytes → Bytes
valued name value = codes "--" ++ (name ++ b'=' ∷ value)

abbrev pane_arg : Option PaneBy → Target → List Bytes
pane_arg none target = []
pane_arg (some by_id) target =
    if bytes_eq target.pane_id [] then [] else valued (codes "pane-id") target.pane_id ∷ []
pane_arg (some by_side) target =
    if bytes_eq target.side [] then [] else valued (codes "pane") target.side ∷ []

unfoldable pub target_args : Option PaneBy → List Target → List Bytes
target_args by [] = []
target_args by (target ∷ targets) =
    valued (codes "target") target.row ∷ (pane_arg by target ++ target_args by targets)

abbrev pub opt_arg : Opt → Bytes
opt_arg opt = if opt.flag then codes "--" ++ opt.name else valued opt.name opt.value

-- Positionals, behind `--` where one of them starts like an option.
unfoldable pub pos_args : List Bytes → List Bytes
pos_args pos = if any (λ word. starts_with word (codes "-")) pos then codes "--" ∷ pos else pos

unfoldable pub render : Call → List Opt → List Bytes → List Bytes
unfolding target_args pos_args
render c opts pos =
    if c.help
    then c.path ++ codes "--help" ∷ []
    else c.path ++ (target_args c.pane_by c.targets ++ (map opt_arg opts ++ pos_args pos))

-- `Call.Args`
unfoldable pub call_args : Call → List Bytes
unfolding render
call_args c = render c c.opts c.pos
