-- ===== src/Proxy/Tests.antt =====
-- The theorems of the proxy at concrete inputs: one row of the host dev, with one attached pane.
mod Daemon
mod Parse
use agterm_remote.Bindings.{Binding}
use agterm_remote.Daemon.Consent.Dialog.{visible}
use agterm_remote.Int.{pos}
use agterm_remote.Prelude.{
  List, Option, String, [], false, none, refl, some, suc, true, zero, ℕ, ◌∷◌,
}
use agterm_remote.Proxy.Argv.{
  accept, long_option, no_args, parse_args, parse_loop, round, take_value, with_spec,
}
use agterm_remote.Proxy.Authz.{Authz, Decision, Reason, Verdict, allow}
use agterm_remote.Proxy.Call.{no_call}
use agterm_remote.Proxy.Leaf.{best_leaf, better, has_prefix, match_leaf}
use agterm_remote.Proxy.Normalise.{
  Url, check_overlay_open, check_pos, file_index, finish, is_blank_text, normalise, opt_step,
  opt_steps, repeats_rows, run_check, sources,
}
use agterm_remote.Proxy.Policy.{
  Request, World, authorize, by_scope, check_agent, current_binding, dead_grants, grant_lives,
  is_current, with_args, with_bindings, with_caller, with_leaf, with_norm, with_tree,
}
use agterm_remote.Proxy.Policy.Agent.{AgentRuns, check_agent-AgentRuns}
use agterm_remote.Proxy.Policy.Authorized.{Authorized, authorize-Authorized}
use agterm_remote.Proxy.Schema.{
  LeafSpec, allowlist, by_id, is_stripped, leaf_name, no_check, option, scope_none,
}
use agterm_remote.Proxy.Scopes.{
  caller_scope, choose_pane, decide_pane, default_pane, is_candidate, is_granted, own_rows,
  pane_call, pane_scope, row_scope, row_target, row_targets, type_local, type_text, unowned,
}
use agterm_remote.Proxy.Scopes.Guarded.{
  CallerSafe, PaneActs, caller_scope-CallerSafe, pane_scope-PaneActs,
}
use agterm_remote.Proxy.Scopes.Rows.{RowSafe, row_scope-RowSafe}
use agterm_remote.Proxy.Targets.{
  check_owned, is_caller_row, is_hidden, local_surface, map_row, not_owned, owned_by, owned_count,
  pane_by_id, pane_by_side, requested_pane, rows_loop, side_kind, target_of, target_rows,
  whole_row_refusal,
}
use agterm_remote.Proxy.Tree.{
  Surface, TreeRow, agent_running, attached, bound_at_pane, default_agents, foreground_of, is_pane,
  is_uuid, open_positionals, panes, path_base, row_at, surface_by_id,
}
use agterm_remote.Proxy.Typed.{
  check_runes, in_ranges, is_control, is_format, preview, preview_parts, sanitize_typed,
}
use agterm_remote.Result.{Result, err, ok}
use agterm_remote.Text.{Bytes, bytes_eq, codes, cut, fields, itoa}
use agterm_remote.Utf8.{runes, runes_from, step}

abbrev caller : Binding
caller = record {
  row = codes "r1";
  pane_id = codes "p1";
  pane = codes "left";
  host = codes "dev";
  name = codes "api";
  mux = codes "tmux";
  bound_at = 1;
  grants = none;
}

abbrev left_pane : Surface
left_pane = record { kind = codes "left"; pane_id = codes "p1"; visible = true }

abbrev row_one : TreeRow
row_one = record {
  id = codes "r1";
  name = codes "api";
  surfaces = left_pane ∷ [];
  has_split = false;
  foreground = codes "/opt/agr" ∷ codes "open" ∷ codes "dev" ∷ codes "api" ∷ [];
  foreground_shell = [];
  split_foreground = [];
  split_foreground_shell = [];
}

abbrev world : World
world = record { tree = some (row_one ∷ []); bindings = some (caller ∷ []) }

abbrev no_urls : Bytes → Option Url
no_urls raw = none

abbrev asking : List Bytes → Request
asking argv = record {
  host = codes "dev";
  caller = caller;
  self_row = codes "r1";
  self_pane = codes "p1";
  file_count = 0;
  argv = argv;
  stdin = [];
}

abbrev words : String → List Bytes
words text = fields (codes text)

abbrev reading : Request
reading = asking (words "session text --lines=5")

abbrev decision : Decision
decision = authorize no_urls default_agents world reading

abbrev verdict_or_none : Result Reason Verdict → Verdict
verdict_or_none (ok v) = v
verdict_or_none (err why) = allow no_call none

authorize-Authorized_example :
    Authorized no_urls default_agents world reading (verdict_or_none decision.verdict)
unfolding bytes_eq cut itoa leaf_name is_stripped option is_pane panes surface_by_id foreground_of
    path_base open_positionals attached agent_running is_uuid row_at bound_at_pane has_prefix better
    best_leaf match_leaf accept take_value with_spec long_option round parse_loop parse_args sources
    check_overlay_open run_check file_index is_blank_text opt_step opt_steps repeats_rows check_pos
    finish normalise map_row is_caller_row rows_loop target_rows pane_by_id side_kind pane_by_side
    requested_pane target_of owned_by not_owned check_owned local_surface is_hidden owned_count
    whole_row_refusal own_rows caller_scope row_target row_targets row_scope is_candidate
    default_pane choose_pane type_text is_granted type_local unowned pane_call decide_pane
    pane_scope is_current current_binding grant_lives dead_grants by_scope with_caller with_bindings
    with_tree with_norm with_args with_leaf authorize
authorize-Authorized_example = authorize-Authorized no_urls default_agents world reading refl

abbrev nth_leaf : ℕ → List LeafSpec → LeafSpec
nth_leaf n [] = record {
  path = [];
  scope = scope_none;
  write = false;
  by = by_id;
  opts = [];
  max_pos = none;
  min_pos = 0;
  pos_allowed = [];
  pos_command = false;
  typing = false;
  check = no_check;
}
nth_leaf zero (leaf ∷ rest) = leaf
nth_leaf (suc n) (leaf ∷ rest) = nth_leaf n rest

abbrev type_leaf : LeafSpec
type_leaf = nth_leaf 7 allowlist

abbrev agent_id : Bytes
agent_id = codes "0a1b2c3d-0000-0000-0000-00000000000f"

abbrev agent_row : TreeRow
agent_row = record row_one {
  id = agent_id;
  surfaces = record left_pane { pane_id = codes "p2" } ∷ [];
  foreground = codes "/usr/bin/claude" ∷ [];
}

abbrev authz : LeafSpec → List Bytes → List Bytes → Authz
authz leaf rows ws = record {
  agents = default_agents;
  host = codes "dev";
  caller = caller;
  self_row = codes "r1";
  self_pane = codes "p1";
  stdin = [];
  leaf = leaf;
  args = record no_args { pos = ws };
  norm = record {
    call = no_call;
    raw_rows = rows;
    raw_pane = [];
    raw_side = [];
    stdin_flag = false;
  };
  rows = row_one ∷ agent_row ∷ [];
  bound = caller ∷ [];
}

abbrev typing : Authz
typing = authz type_leaf (agent_id ∷ []) (codes "hi" ∷ [])

pane_scope-PaneActs_example : PaneActs typing (verdict_or_none (pane_scope typing))
unfolding sanitize_typed runes runes_from step check_runes is_control in_ranges is_format preview
    preview_parts bytes_eq cut itoa leaf_name is_stripped option is_pane panes surface_by_id
    foreground_of path_base open_positionals attached agent_running is_uuid row_at bound_at_pane
    has_prefix better best_leaf match_leaf accept take_value with_spec long_option round parse_loop
    parse_args sources check_overlay_open run_check file_index is_blank_text opt_step opt_steps
    repeats_rows check_pos finish normalise map_row is_caller_row rows_loop target_rows pane_by_id
    side_kind pane_by_side requested_pane target_of owned_by not_owned check_owned local_surface
    is_hidden owned_count whole_row_refusal own_rows caller_scope row_target row_targets row_scope
    is_candidate default_pane choose_pane type_text is_granted type_local unowned pane_call
    decide_pane pane_scope is_current current_binding grant_lives dead_grants by_scope with_caller
    with_bindings with_tree with_norm with_args with_leaf authorize
pane_scope-PaneActs_example = pane_scope-PaneActs typing refl

abbrev on_own_row : Authz
on_own_row = authz type_leaf (codes "r1" ∷ []) []

caller_scope-CallerSafe_example : CallerSafe on_own_row (verdict_or_none (caller_scope on_own_row))
unfolding bytes_eq cut itoa leaf_name is_stripped option is_pane panes surface_by_id foreground_of
    path_base open_positionals attached agent_running is_uuid row_at bound_at_pane has_prefix better
    best_leaf match_leaf accept take_value with_spec long_option round parse_loop parse_args sources
    check_overlay_open run_check file_index is_blank_text opt_step opt_steps repeats_rows check_pos
    finish normalise map_row is_caller_row rows_loop target_rows pane_by_id side_kind pane_by_side
    requested_pane target_of owned_by not_owned check_owned local_surface is_hidden owned_count
    whole_row_refusal own_rows caller_scope row_target row_targets row_scope is_candidate
    default_pane choose_pane type_text is_granted type_local unowned pane_call decide_pane
    pane_scope is_current current_binding grant_lives dead_grants by_scope with_caller with_bindings
    with_tree with_norm with_args with_leaf authorize
caller_scope-CallerSafe_example = caller_scope-CallerSafe on_own_row refl

row_scope-RowSafe_example : RowSafe on_own_row (verdict_or_none (row_scope on_own_row))
unfolding bytes_eq cut itoa leaf_name is_stripped option is_pane panes surface_by_id foreground_of
    path_base open_positionals attached agent_running is_uuid row_at bound_at_pane has_prefix better
    best_leaf match_leaf accept take_value with_spec long_option round parse_loop parse_args sources
    check_overlay_open run_check file_index is_blank_text opt_step opt_steps repeats_rows check_pos
    finish normalise map_row is_caller_row rows_loop target_rows pane_by_id side_kind pane_by_side
    requested_pane target_of owned_by not_owned check_owned local_surface is_hidden owned_count
    whole_row_refusal own_rows caller_scope row_target row_targets row_scope is_candidate
    default_pane choose_pane type_text is_granted type_local unowned pane_call decide_pane
    pane_scope is_current current_binding grant_lives dead_grants by_scope with_caller with_bindings
    with_tree with_norm with_args with_leaf authorize
row_scope-RowSafe_example = row_scope-RowSafe on_own_row refl

check_agent-AgentRuns_example :
    AgentRuns default_agents (record world { tree = some (agent_row ∷ []) }) agent_id (codes "p2")
unfolding check_agent bytes_eq surface_by_id agent_running foreground_of path_base
check_agent-AgentRuns_example =
    check_agent-AgentRuns default_agents (record world { tree = some (agent_row ∷ []) }) agent_id
      (codes "p2") refl
