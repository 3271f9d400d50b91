-- ===== src/Daemon/Calls/Tests.antt =====
-- Tests of a host's calls, and their theorem at a call that the user allows.

use agterm_remote.Proxy.Rewrite.{size_page}
use agterm_remote.Proxy.Prepare.{rewrite, rewrite_sized}
use agterm_remote.Daemon.NewRow.{exec}
use agterm_remote.Daemon.Pages.{new_shim}
use agterm_remote.Daemon.Run.{Met, exits_with, run, drive_shim_page, run_plain}
use agterm_remote.Bindings.{Binding}
use agterm_remote.Daemon.Calls.{
  Called, Meets, admitted_call, by_consent, ctl, runs_to, on_verdict, run_call, turned_down,
}
use agterm_remote.Daemon.Consent.{
  Asking, answer_of, answered, await, begin_dialog, button_once, button_pair, consent,
  consent_refusal, decided, forget, poll_again, refused_until, undecided, user_declined,
}
use agterm_remote.Daemon.Slots.{HostCtl, enter, finish_locked, leave, new_host}
use agterm_remote.Int.{pos}
use agterm_remote.Prelude.{Option, [], false, none, refl, some, true, ◌++◌, ◌∷◌, ◌≡◌}
use agterm_remote.Proxy.Argv.{
  accept, long_option, parse_args, parse_loop, round, take_value, with_spec,
}
use agterm_remote.Proxy.Leaf.{best_leaf, better, has_prefix, match_leaf}
use agterm_remote.Proxy.Normalise.{
  Url, check_overlay_open, check_pos, file_index, finish, is_blank_text, normalise, opt_step,
  opt_steps, repeats_rows, run_check, sources,
}
use agterm_remote.Proxy.Policy.{
  Request, World, authorize, by_scope, check_agent, current_binding, dead_grants, grant_lives,
  is_current, with_args, with_bindings, with_caller, with_leaf, with_norm, with_tree,
}
use agterm_remote.Proxy.Schema.{is_stripped, leaf_name, option}
use agterm_remote.Proxy.Scopes.{
  caller_scope, choose_pane, decide_pane, default_pane, is_candidate, is_granted, own_rows,
  pane_call, pane_scope, row_scope, row_target, row_targets, type_local, type_text, unowned,
}
use agterm_remote.Proxy.Targets.{
  check_owned, is_caller_row, is_hidden, local_surface, map_row, not_owned, owned_by, owned_count,
  pane_by_id, pane_by_side, requested_pane, rows_loop, side_kind, target_of, target_rows,
  whole_row_refusal,
}
use agterm_remote.Proxy.Tree.{
  TreeRow, agent_running, attached, bound_at_pane, default_agents, foreground_of, is_pane, is_uuid,
  open_positionals, panes, path_base, row_at, surface_by_id,
}
use agterm_remote.Proxy.Typed.{
  check_runes, in_ranges, is_control, is_format, preview, preview_parts, sanitize_typed,
}
use agterm_remote.Result.{ok}
use agterm_remote.Text.{Bytes, bytes_eq, codes, cut, itoa}
use agterm_remote.Utf8.{runes, runes_from, step}

abbrev caller : Binding
caller = record {
  row = codes "r1";
  pane_id = codes "p1";
  pane = codes "left";
  host = codes "dev";
  name = codes "api";
  mux = codes "tmux";
  bound_at = 1;
  grants = none;
}

abbrev own_row : TreeRow
own_row = record {
  id = codes "r1";
  name = codes "api";
  surfaces = (record { kind = codes "left"; pane_id = codes "p1"; visible = true }) ∷ [];
  has_split = false;
  foreground = codes "/opt/agr" ∷ codes "open" ∷ codes "dev" ∷ codes "api" ∷ [];
  foreground_shell = [];
  split_foreground = [];
  split_foreground_shell = [];
}

abbrev agent_id : Bytes
agent_id = codes "0a1b2c3d-0000-0000-0000-00000000000f"

-- A local row that runs an agent, and belongs to no host.
abbrev agent_row : TreeRow
agent_row = record own_row {
  id = agent_id;
  surfaces = (record { kind = codes "left"; pane_id = codes "p2"; visible = true }) ∷ [];
  foreground = codes "/usr/bin/claude" ∷ [];
}

abbrev world : World
world = record { tree = some (own_row ∷ agent_row ∷ []); bindings = some (caller ∷ []) }

abbrev no_urls : Bytes → Option Url
no_urls raw = none

-- The host dev types into the agent's row.
abbrev typing : Request
typing = record {
  host = codes "dev";
  caller = caller;
  self_row = codes "r1";
  self_pane = codes "p1";
  file_count = 0;
  argv = codes "session" ∷ codes "type" ∷ codes "hi" ∷ (codes "--target=" ++ agent_id) ∷ [];
  stdin = [];
}

-- Each command ends with 0.
abbrev met : Met
met = record {
  is_local = λ url. false;
  dir = [];
  env = record { agr = codes "agr"; sessions = none; bindings = none; page_size = pos 70 };
  origin = record { host = codes "dev"; session = codes "api"; cwd = []; files = []; stdin = [] };
  reserved = [];
  shim = new_shim;
  token = none;
  listens = none;
  shows = λ p. false;
  lists = λ p. false;
  ended = λ argv. some (pos 0);
  over = false;
  over_later = false;
  page_id = [];
  tracks = true;
  waited = λ p. none;
}

-- The user answers the second time the dialog is read.
abbrev meets : Bytes → Meets
meets button = record {
  admitted = false;
  version_passes = true;
  first_look = world;
  second_look = world;
  answers = record {
    now = 0;
    opened = ok (codes "ask-1");
    rounds = (undecided, poll_again) ∷ (answered button, poll_again) ∷ [];
    stopping = false;
    then_now = 5;
    recheck = none;
    stores = true;
  };
  met = met;
}

abbrev fresh : Asking
fresh = record { dialog = false; refused = [] }

abbrev no_result : Called × HostCtl
no_result = (
  record { actions = []; ran = none; answer = runs_to (exits_with (pos 99)); asking = fresh },
  new_host,
)

abbrev result_of : Option (Called × HostCtl) → Called × HostCtl
result_of none = no_result
result_of (some r) = r

abbrev result : Bytes → Called × HostCtl
result button = result_of (ctl no_urls default_agents typing (meets button) new_host fresh)

allowed_test : (result (codes "once")).0.answer ≡ runs_to (exits_with (pos 0))
unfolding sanitize_typed runes runes_from step check_runes is_control in_ranges is_format preview
    preview_parts bytes_eq cut itoa leaf_name is_stripped option is_pane panes surface_by_id
    foreground_of path_base open_positionals attached agent_running is_uuid row_at bound_at_pane
    has_prefix better best_leaf match_leaf accept take_value with_spec long_option round parse_loop
    parse_args sources check_overlay_open run_check file_index is_blank_text opt_step opt_steps
    repeats_rows check_pos finish normalise map_row is_caller_row rows_loop target_rows pane_by_id
    side_kind pane_by_side requested_pane target_of owned_by not_owned check_owned local_surface
    is_hidden owned_count whole_row_refusal own_rows caller_scope row_target row_targets row_scope
    is_candidate default_pane choose_pane type_text is_granted type_local unowned pane_call
    decide_pane pane_scope is_current current_binding grant_lives dead_grants by_scope with_caller
    with_bindings with_tree with_norm with_args with_leaf authorize check_agent consent begin_dialog
    refused_until await decided answer_of button_once button_pair forget consent_refusal run_call
    on_verdict admitted_call enter leave finish_locked ctl run drive_shim_page run_plain exec
    rewrite rewrite_sized size_page
allowed_test = refl

denied_test : (result (codes "deny")).0.answer ≡ turned_down (by_consent user_declined)
unfolding sanitize_typed runes runes_from step check_runes is_control in_ranges is_format preview
    preview_parts bytes_eq cut itoa leaf_name is_stripped option is_pane panes surface_by_id
    foreground_of path_base open_positionals attached agent_running is_uuid row_at bound_at_pane
    has_prefix better best_leaf match_leaf accept take_value with_spec long_option round parse_loop
    parse_args sources check_overlay_open run_check file_index is_blank_text opt_step opt_steps
    repeats_rows check_pos finish normalise map_row is_caller_row rows_loop target_rows pane_by_id
    side_kind pane_by_side requested_pane target_of owned_by not_owned check_owned local_surface
    is_hidden owned_count whole_row_refusal own_rows caller_scope row_target row_targets row_scope
    is_candidate default_pane choose_pane type_text is_granted type_local unowned pane_call
    decide_pane pane_scope is_current current_binding grant_lives dead_grants by_scope with_caller
    with_bindings with_tree with_norm with_args with_leaf authorize check_agent consent begin_dialog
    refused_until await decided answer_of button_once button_pair forget consent_refusal run_call
    on_verdict admitted_call enter leave finish_locked ctl
denied_test = refl
