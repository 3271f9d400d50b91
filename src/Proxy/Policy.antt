-- ===== src/Proxy/Policy.antt =====
-- internal/proxy/policy.go: `Authorize`, its load of the tree and the bindings, and `CheckAgent`.
-- The tree and the bindings are what one read of each gives; `none` is a failed read.
pub mod Authorized
pub mod Agent
use agterm_remote.Bindings.{Binding, Grant, grant_list}
use agterm_remote.Prelude.{
  Bool, List, Option, [], all, any, false, filter, find, if◌then◌else◌, is_none, none, not, some,
  true, ℕ, ◌&&◌, ◌||◌, ◌∷◌,
}
use agterm_remote.Proxy.Argv.{ArgError, ParsedArgs, parse_args}
use agterm_remote.Proxy.Authz.{
  Authz, Decision, Norm, Reason, Verdict, allow, bad_args, bad_leaf, bindings_unreadable,
  caller_unbound, tree_unreadable,
}
use agterm_remote.Proxy.Call.{Call, no_call}
use agterm_remote.Proxy.Leaf.{LeafError, MatchedLeaf, match_leaf}
use agterm_remote.Proxy.Normalise.{Url, normalise}
use agterm_remote.Proxy.Schema.{
  LeafSpec, Scope, leaf_name, scope_caller, scope_none, scope_pane, scope_row,
}
use agterm_remote.Proxy.Scopes.{caller_scope, pane_scope, row_scope}
use agterm_remote.Proxy.Tree.{AgentError, Surface, TreeRow, agent_running, row_at, surface_by_id}
use agterm_remote.Result.{Result, err, ok}
use agterm_remote.Text.{Bytes, bytes_eq, codes, equal_fold}
use mathlib.Core.Option

-- What the policy reads, once per call.
pub record World : Type 0 where
  pub tree : Option (List TreeRow)
  pub bindings : Option (List Binding)

-- One call of a host: its caller, what the header says, and the body.
pub record Request : Type 0 where
  pub host : Bytes
  pub caller : Binding
  pub self_row : Bytes
  pub self_pane : Bytes
  pub file_count : ℕ
  pub argv : List Bytes
  pub stdin : Bytes

-- The binding of the caller as it is now.
unfoldable pub is_current : Binding → Binding → Bool
is_current caller b =
    bytes_eq b.host caller.host
    && bytes_eq b.name caller.name
    && equal_fold b.row caller.row
    && equal_fold b.pane_id caller.pane_id

unfoldable pub current_binding : Binding → List Binding → Option Binding
current_binding caller all = find (is_current caller) all

-- Whether the pane of a grant is still in its row.
unfoldable pub grant_lives : List TreeRow → Grant → Bool
grant_lives rows g = elim (row_at rows g.row) [
  | none ↦ false
  | some row ↦ not (is_none (surface_by_id row g.pane_id))
]

unfoldable pub dead_grants : List TreeRow → Binding → List Grant
dead_grants rows b = filter (λ g. not (grant_lives rows g)) (grant_list b.grants)

unfoldable pub by_scope : Scope → Authz → Result Reason Verdict
by_scope scope_none a = ok (allow a.norm.call none)
by_scope scope_caller a = caller_scope a
by_scope scope_pane a = pane_scope a
by_scope scope_row a = row_scope a

abbrev refuse : Reason → Decision
refuse why = record { verdict = err why; dropped = [] }

abbrev without_world : Scope → Bool
without_world scope_none = true
without_world _ = false

module _ (parse_url : Bytes → Option Url) (agents : List Bytes) (w : World) (q : Request) where
  abbrev pub authz_of : LeafSpec → ParsedArgs → Norm → List TreeRow → List Binding → Binding → Authz
  authz_of leaf args norm rows all current = record {
    agents = agents;
    host = q.host;
    caller = current;
    self_row = q.self_row;
    self_pane = q.self_pane;
    stdin = q.stdin;
    leaf = leaf;
    args = args;
    norm = norm;
    rows = rows;
    bound = all;
  }

  unfoldable pub with_caller :
      LeafSpec → ParsedArgs → Norm → List TreeRow → List Binding → Option Binding → Decision
  with_caller leaf args norm rows all none = refuse caller_unbound
  with_caller leaf args norm rows all (some current) = record {
    verdict = by_scope leaf.scope (authz_of leaf args norm rows all current);
    dropped = dead_grants rows current;
  }

  unfoldable pub with_bindings :
      LeafSpec → ParsedArgs → Norm → List TreeRow → Option (List Binding) → Decision
  with_bindings leaf args norm rows none = refuse bindings_unreadable
  with_bindings leaf args norm rows (some all) =
      with_caller leaf args norm rows all (current_binding q.caller all)

  unfoldable pub with_tree : LeafSpec → ParsedArgs → Norm → Option (List TreeRow) → Decision
  with_tree leaf args norm none = refuse tree_unreadable
  with_tree leaf args norm (some rows) = with_bindings leaf args norm rows w.bindings

  unfoldable pub with_norm : LeafSpec → ParsedArgs → Result Reason Norm → Decision
  with_norm leaf args (err why) = refuse why
  with_norm leaf args (ok norm) =
      if without_world leaf.scope
      then record { verdict = ok (allow norm.call none); dropped = [] }
      else with_tree leaf args norm w.tree

  abbrev help_call : LeafSpec → Call
  help_call leaf = record no_call { leaf = leaf_name leaf; path = leaf.path; help = true }

  unfoldable pub with_args : LeafSpec → Result ArgError ParsedArgs → Decision
  with_args leaf (err e) = refuse (bad_args e)
  with_args leaf (ok args) =
      if args.help
      then record { verdict = ok (allow (help_call leaf) none); dropped = [] }
      else with_norm leaf args (normalise parse_url leaf args q.file_count)

  unfoldable pub with_leaf : Result LeafError MatchedLeaf → Decision
  with_leaf (err e) = refuse (bad_leaf e)
  with_leaf (ok m) = with_args m.spec (parse_args m.spec m.rest)

  abbrev asks_help : List Bytes → Bool
  asks_help [] = false
  asks_help (a ∷ argv) = bytes_eq a (codes "--help") || bytes_eq a (codes "-h")

  unfoldable pub authorize : Decision
  authorize =
      if asks_help q.argv
      then record {
        verdict = ok (allow (record no_call { leaf = codes "help"; help = true }) none);
        dropped = [];
      }
      else with_leaf (match_leaf q.argv)

-- `CheckAgent`: the program rule once more, on a fresh read.
pub data CheckError : Type 0 where
  check_tree check_bindings : CheckError
  pane_bound : Bytes → CheckError
  not_agent : AgentError → CheckError
  pane_gone : Bytes → CheckError

pane_agent : List Bytes → Bytes → TreeRow → Option Surface → Option CheckError
pane_agent agents pane_id row none = some (pane_gone pane_id)
pane_agent agents pane_id row (some s) = Option.map not_agent (agent_running agents row s.kind)

row_agent : List Bytes → Bytes → Option TreeRow → Option CheckError
unfolding pane_agent
row_agent agents pane_id none = some (pane_gone pane_id)
row_agent agents pane_id (some row) = pane_agent agents pane_id row (surface_by_id row pane_id)

-- `none` where the text may be typed.
unfoldable pub check_agent : List Bytes → World → Bytes → Bytes → Option CheckError
unfolding row_agent
check_agent agents w row pane_id = elim w.tree [
  | none ↦ some check_tree
  | some rows ↦ elim w.bindings [
    | none ↦ some check_bindings
    | some all ↦
        if any (λ b. equal_fold b.pane_id pane_id) all
        then some (pane_bound pane_id)
        else row_agent agents pane_id (find (λ r. equal_fold r.id row) rows)
  ]
]
