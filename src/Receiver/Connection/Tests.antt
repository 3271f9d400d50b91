-- ===== src/Receiver/Connection/Tests.antt =====
-- Tests of connections, and their theorem at a connection with an event and a call.
use Prim.Native.Char.{code}
use agterm_remote.Bindings.{Binding, by_host_name}
use agterm_remote.Int.{pos}
use agterm_remote.Prelude.{Bool, List, Option, [], none, refl, some, true, ◌∷◌, ◌≡◌}
use agterm_remote.Proxy.Wire.{
  WireHeader, check_files, check_header, decode_header, max_files, max_files_total, max_stdin,
  read_body, read_files, read_full, read_sized, within_limit,
}
use agterm_remote.Receiver.Connection.{
  CtlMeets, Effect, acks, calls, exits, marks_alive, pushes, refuses, serve_conn, serve_ctl,
}
use agterm_remote.Receiver.Connection.Protocol.{Protocol}
use agterm_remote.Receiver.Events.{WireEvent, check_event, decode, has_arg, route, status_args}
use agterm_remote.Receiver.Lines.{LineRead, got_line, skipped}
use agterm_remote.Result.{ok}
use agterm_remote.Text.{Bytes, bytes_eq, codes}
use agterm_remote.Token.{valid, valid_char, valid_state}

abbrev dev_row : Binding
dev_row = record {
  row = codes "r1";
  pane_id = codes "p1";
  pane = codes "left";
  host = codes "dev";
  name = codes "api";
  mux = codes "tmux";
  bound_at = 1;
  grants = none;
}

-- A header without files and input, for any line.
abbrev headers : Bytes → Option WireHeader
headers text = some (record {
  cmd = codes "ctl";
  v = pos 1;
  session_id = [];
  header = record {
    session = codes "api";
    self = record { row = codes "r1"; pane_id = codes "p1" };
    cwd = [];
    argv = codes "tree" ∷ [];
    files = [];
    stdin = pos 0;
  };
})

abbrev events : Bytes → Option WireEvent
events text = some (record {
  cmd = codes "session-status";
  session = codes "api";
  session_id = [];
  state = codes "idle";
  pane = [];
  pane_id = [];
  args = [];
})

abbrev meets : CtlMeets
meets = record {
  available = true;
  admitted = ok tt;
  ack_written = true;
  deadline_set = true;
  body = [];
  deadline_cleared = true;
  code = λ q. pos 0;
}

abbrev is_call : Bytes → Bool
is_call text = bytes_eq text (codes "call")

-- An event, an oversized line, a call, and a line behind it.
abbrev reads : List (LineRead × List Binding)
reads =
    (got_line (codes "idle"), dev_row ∷ [])
    ∷ (skipped, dev_row ∷ [])
    ∷ (got_line (codes "call"), dev_row ∷ [])
    ∷ (got_line (codes "late"), dev_row ∷ [])
    ∷ []

abbrev kinds : List Effect → Bytes
kinds [] = []
kinds (marks_alive ∷ l) = b'm' ∷ kinds l
kinds (acks ∷ l) = b'a' ∷ kinds l
kinds (pushes target args ∷ l) = b'p' ∷ kinds l
kinds (refuses r ∷ l) = b'r' ∷ kinds l
kinds (calls q ∷ l) = b'c' ∷ kinds l
kinds (exits code ∷ l) = b'x' ∷ kinds l

effects_test : kinds (serve_conn (codes "dev") meets events headers is_call reads) ≡ codes "mpmacx"
unfolding serve_conn serve_ctl decode check_event valid valid_state valid_char bytes_eq has_arg
    route status_args by_host_name decode_header check_header check_files within_limit max_files
    max_files_total max_stdin read_body read_files read_sized read_full
effects_test = refl
