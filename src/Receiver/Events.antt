-- ===== src/Receiver/Events.antt =====
-- internal/receiver/event.go, internal/receiver/listener.go: status events and where they are routed.
-- The listener has a sink and a resolver, the bindings database as it reads when it is asked. JSON
-- decoding is a parameter.
pub mod Owned
mod Tests
-- `wireEvent`: an absent field is empty.
use agterm_remote.Bindings.{Binding, by_host_name, for_row}
use agterm_remote.Prelude.{
  Bool, List, Option, [], false, if◌then◌else◌, is_nil, none, not, some, true, ◌∷◌,
}
use agterm_remote.Result.{Result, err, ok}
use agterm_remote.Text.{Bytes, bytes_eq, codes}
use agterm_remote.Token.{valid, valid_state}

pub record WireEvent : Type 0 where
  pub cmd : Bytes
  pub session : Bytes
  pub session_id : Bytes
  pub state : Bytes
  pub pane : Bytes
  pub pane_id : Bytes
  pub args : List Bytes

pub record Event : Type 0 where
  pub host : Bytes
  pub session : Bytes
  pub session_id : Bytes
  pub state : Bytes
  pub pane : Bytes
  pub pane_id : Bytes
  pub blink : Bool
  pub auto_reset : Bool

pub data EventError : Type 0 where
  bad_event unknown_command bad_state bad_session bad_session_id both_targets no_target : EventError

unfoldable pub has_arg : List Bytes → Bytes → Bool
has_arg [] wanted = false
has_arg (arg ∷ rest) wanted = if bytes_eq arg wanted then true else has_arg rest wanted

-- The event before its target.
abbrev pub event_of : Bytes → WireEvent → Event
event_of host w = record {
  host = host;
  session = [];
  session_id = [];
  state = w.state;
  pane = w.pane;
  pane_id = w.pane_id;
  blink = has_arg w.args (codes "--blink");
  auto_reset = has_arg w.args (codes "--auto-reset");
}

-- The switch on the two targets, by whether each is empty.
abbrev pub with_target : Bytes → WireEvent → Bool → Bool → Result EventError Event
with_target host w false true =
    if valid w.session
    then ok (record (event_of host w) { session = w.session })
    else err bad_session
with_target host w true false =
    if valid w.session_id
    then ok (record (event_of host w) { session_id = w.session_id })
    else err bad_session_id
with_target host w false false = err both_targets
with_target host w true true = err no_target

unfoldable pub check_event : Bytes → WireEvent → Result EventError Event
check_event host w =
    if not (bytes_eq w.cmd (codes "session-status"))
    then err unknown_command
    else if not (valid_state w.state)
    then err bad_state
    else with_target host w (is_nil w.session) (is_nil w.session_id)

unfoldable pub decode : (Bytes → Option WireEvent) → Bytes → Bytes → Result EventError Event
decode unmarshal host text = elim (unmarshal text) [
  | none ↦ err bad_event
  | some w ↦ check_event host w
]

-- The optional flags are pointers in the source: `none` where nil.
pub record StatusArgs : Type 0 where
  pub status : Bytes
  pub blink : Option Bool
  pub auto_reset : Option Bool
  pub pane : Bytes
  pub pane_id : Bytes

abbrev set_flag : Bool → Option Bool
set_flag b = if b then some true else none

unfoldable pub status_args : Event → StatusArgs
status_args e = record {
  status = e.state;
  blink = set_flag e.blink;
  auto_reset = set_flag e.auto_reset;
  pane = e.pane;
  pane_id = e.pane_id;
}

unfoldable pub any_of_host : Bytes → List Binding → Bool
any_of_host host [] = false
any_of_host host (b ∷ bs) = if bytes_eq b.host host then true else any_of_host host bs

-- `rowBound`
unfoldable pub row_bound : Bytes → List Binding → Bytes → Bool
row_bound host bs row = any_of_host host (for_row row bs)

abbrev pub to_binding : StatusArgs → Option Binding → Option (Bytes × StatusArgs)
to_binding args none = none
to_binding args (some b) = some (b.row, record args { pane = b.pane; pane_id = b.pane_id })

-- `route`: the target and the arguments of the status that is pushed, if any.
unfoldable pub route : Bytes → List Binding → Event → Option (Bytes × StatusArgs)
route host bs e =
    let args = status_args e in
    if not (is_nil e.session)
    then to_binding args (by_host_name host e.session bs)
    else if row_bound host bs e.session_id
    then some (e.session_id, args)
    else none
