-- ===== src/Receiver/Events/Tests.antt =====
-- Tests of events, and of where they are routed.
use agterm_remote.Bindings.{Binding, for_row}
use agterm_remote.Prelude.{[], none, refl, some, true, ◌∷◌, ◌≡◌}
use agterm_remote.Receiver.Events.{
  Event, StatusArgs, WireEvent, any_of_host, bad_session_id, both_targets, check_event, event_of,
  has_arg, route, row_bound, status_args,
}
use agterm_remote.Result.{err, ok}
use agterm_remote.Text.{bytes_eq, codes}
use agterm_remote.Token.{valid, valid_char, valid_state}

abbrev dev_row : Binding
dev_row = record {
  row = codes "r1";
  pane_id = codes "p1";
  pane = codes "left";
  host = codes "dev";
  name = codes "api";
  mux = codes "tmux";
  bound_at = 1;
  grants = none;
}

abbrev wire : WireEvent
wire = record {
  cmd = codes "session-status";
  session = [];
  session_id = codes "r1";
  state = codes "idle";
  pane = [];
  pane_id = [];
  args = codes "--blink" ∷ [];
}

abbrev row_event : Event
row_event = record (event_of (codes "dev") wire) { session_id = codes "r1" }

check_test :
    (check_event (codes "dev") wire ≡ ok row_event)
    × (check_event (codes "dev") (record wire { session = codes "api" }) ≡ err both_targets)
    × (check_event (codes "dev") (record wire { session_id = codes "-r" }) ≡ err bad_session_id)
unfolding check_event valid valid_state valid_char bytes_eq has_arg
check_test = (refl, refl, refl)

-- Another host may not push to the row.
unowned_test : route (codes "web") (dev_row ∷ []) row_event ≡ none
unfolding route row_bound any_of_host for_row status_args bytes_eq has_arg
unowned_test = refl

abbrev idle : StatusArgs
idle = record {
  status = codes "idle";
  blink = some true;
  auto_reset = none;
  pane = [];
  pane_id = [];
}
