-- ===== src/Proxy/Authz.antt =====
-- internal/proxy/policy.go: the state of one authorization, and why a call is refused. A reason is a
-- constructor with the values that its text shows; the leaf's name in front of it is left out.
use agterm_remote.Bindings.{Binding, Grant}
use agterm_remote.Prelude.{Bool, List, Option, ℕ}
use agterm_remote.Proxy.Argv.{ArgError, ParsedArgs}
use agterm_remote.Proxy.Call.{Call}
use agterm_remote.Proxy.Leaf.{LeafError}
use agterm_remote.Proxy.Schema.{LeafSpec}
use agterm_remote.Proxy.Tree.{AgentError, TreeRow}
use agterm_remote.Proxy.Typed.{TypedError}
use agterm_remote.Result.{Result}
use agterm_remote.Text.{Bytes}

pub data FileError : Type 0 where
  not_a_reference : Bytes → FileError
  not_sent : Bytes → FileError

pub data Reason : Type 0 where
  bad_leaf : LeafError → Reason
  bad_args : ArgError → Reason
  too_few too_many : ℕ → ℕ → Reason
  pos_not_allowed : Bytes → Reason
  overlay_sources : Reason
  overlay_url : Bytes → Reason
  overlay_js : Reason
  empty_option : Bytes → Reason
  bad_file : Bytes → FileError → Reason
  target_repeated : Reason
  empty_command : Reason
  tree_unreadable : Reason
  bindings_unreadable : Reason
  caller_unbound : Reason
  not_a_row_id : Bytes → Reason
  no_such_row : Bytes → Reason
  not_a_pane_id : Bytes → Reason
  pane_not_in_row : Bytes → Bytes → Reason
  no_such_side : Bytes → Bytes → Reason
  panes_differ : Reason
  own_row_gone : Reason
  own_row_only : Reason
  own_pane_gone : Reason
  bound_elsewhere : Bytes → Reason
  not_bound : Bytes → Reason
  not_attached : Bytes → Reason
  row_without_pane : Bytes → Reason
  local_terminal : Bytes → Bytes → Reason
  in_row : Bytes → Reason → Reason
  stale_binding : Bytes → Reason
  writes_own_panes_only reads_own_panes_only : Bytes → Reason
  ambiguous_pane : Bytes → ℕ → Reason
  bound_to_a_host : Bytes → Reason
  bad_agent : AgentError → Reason
  text_twice : Reason
  no_text : Reason
  bad_text : TypedError → Reason
  no_row : Reason

-- What the daemon asks the user; the preview is its runes.
pub record Consent : Type 0 where
  pub row : Bytes
  pub row_name : Bytes
  pub pane_id : Bytes
  pub text : Bytes
  pub preview : List ℕ

-- A call that is not refused: it may run, or may run if the user agrees.
pub data Verdict : Type 0 where
  allow : Call → Option Consent → Verdict
  ask : Call → Consent → Verdict

pub record Decision : Type 0 where
  pub verdict : Result Reason Verdict
  pub dropped : List Grant

-- What `normalise` collects: the call so far and the raw option values by role.
pub record Norm : Type 0 where
  pub call : Call
  pub raw_rows : List Bytes
  pub raw_pane : Bytes
  pub raw_side : Bytes
  pub stdin_flag : Bool

-- The inputs of one authorization, once its leaf and arguments are known: the policy's agents, the
-- host, the caller's binding, the caller's own ids as the host saw them, and the body.
pub record Authz : Type 0 where
  pub agents : List Bytes
  pub host : Bytes
  pub caller : Binding
  pub self_row : Bytes
  pub self_pane : Bytes
  pub stdin : Bytes
  pub leaf : LeafSpec
  pub args : ParsedArgs
  pub norm : Norm
  pub rows : List TreeRow
  pub bound : List Binding
