-- ===== src/Receiver/Connection.antt =====
-- internal/receiver/listener.go: one connection of a host's bridge: its status events, and the call
-- that ends it. What the proxy, the clock and the writes answer is in `CtlMeets`.
mod Protocol
mod Tests
use agterm_remote.Bindings.{Binding, by_host_name}
use agterm_remote.Daemon.Slots.{SlotError}
use agterm_remote.Int.{ℤ}
use agterm_remote.Prelude.{Bool, List, Option, [], if◌then◌else◌, none, some, ◌++◌, ◌∷◌}
use agterm_remote.Proxy.Wire.{BodyError, Header, HeaderError, WireHeader, decode_header, read_body}
use agterm_remote.Receiver.Events.{Event, EventError, StatusArgs, WireEvent, decode, route}
use agterm_remote.Receiver.Lines.{LineRead, got_line, skipped, stopped}
use agterm_remote.Result.{Result, err, ok}
use agterm_remote.Text.{Bytes}

-- What a call meets: whether there is a proxy, whether `Admit` refuses, whether the ack and the two
-- deadlines succeed, what the client sends behind the header, and the exit code of `Ctl`.
pub record CtlRequest : Type 0 where
  pub host : Bytes
  pub caller : Binding
  pub header : Header
  pub files : List Bytes
  pub stdin : Bytes

pub record CtlMeets : Type 0 where
  pub available : Bool
  pub admitted : Result SlotError Unit
  pub ack_written : Bool
  pub deadline_set : Bool
  pub body : Bytes
  pub deadline_cleared : Bool
  pub code : CtlRequest → ℤ

pub data CtlRefusal : Type 0 where
  bad_header : HeaderError → CtlRefusal
  no_proxy no_binding : CtlRefusal
  not_admitted : SlotError → CtlRefusal
  bad_body : BodyError → CtlRefusal

pub data Effect : Type 0 where
  marks_alive acks : Effect
  pushes : Bytes → StatusArgs → Effect
  refuses : CtlRefusal → Effect
  calls : CtlRequest → Effect
  exits : ℤ → Effect

abbrev pub request_of : Bytes → Binding → Header → List Bytes → Bytes → CtlRequest
request_of host b h files stdin = record {
  host = host;
  caller = b;
  header = h;
  files = files;
  stdin = stdin;
}

module _ (host : Bytes) (m : CtlMeets) where
  abbrev pub run_ctl : CtlRequest → List Effect
  run_ctl q = if m.deadline_cleared then calls q ∷ exits (m.code q) ∷ [] else []

  abbrev pub with_body :
      Binding → Header → Result BodyError (List Bytes × (Bytes × Bytes)) → List Effect
  with_body b h (err e) = refuses (bad_body e) ∷ []
  with_body b h (ok (files, (stdin, left))) = run_ctl (request_of host b h files stdin)

  abbrev pub after_ack : Binding → Header → List Effect
  after_ack b h = if m.deadline_set then with_body b h (read_body h m.body) else []

  abbrev pub with_admitted : Binding → Header → Result SlotError Unit → List Effect
  with_admitted b h (err why) = refuses (not_admitted why) ∷ []
  with_admitted b h (ok _) = if m.ack_written then acks ∷ after_ack b h else []

  abbrev pub with_binding : Header → Option Binding → List Effect
  with_binding h none = refuses no_binding ∷ []
  with_binding h (some b) = with_admitted b h m.admitted

  abbrev pub with_header : List Binding → Result HeaderError Header → List Effect
  with_header bs (err e) = refuses (bad_header e) ∷ []
  with_header bs (ok h) =
      marks_alive
      ∷ (if m.available
          then with_binding h (by_host_name host h.session bs)
          else refuses no_proxy ∷ [])

  unfoldable pub serve_ctl : (Bytes → Option WireHeader) → List Binding → Bytes → List Effect
  serve_ctl unmarshal bs text = with_header bs (decode_header unmarshal text)

  abbrev pub push : Option (Bytes × StatusArgs) → List Effect
  push none = []
  push (some (target, args)) = pushes target args ∷ []

  abbrev pub with_event : List Binding → Result EventError Event → List Effect
  with_event bs (err e) = []
  with_event bs (ok e) = marks_alive ∷ push (route host bs e)

  -- `serveConn` on what it reads, each with the bindings as they are then.
  unfoldable pub serve_conn :
      (Bytes → Option WireEvent)
      → (Bytes → Option WireHeader)
      → (Bytes → Bool)
      → List (LineRead × List Binding)
      → List Effect
  serve_conn events headers is_ctl [] = []
  serve_conn events headers is_ctl ((stopped oversized, bs) ∷ rest) = []
  serve_conn events headers is_ctl ((skipped, bs) ∷ rest) = serve_conn events headers is_ctl rest
  serve_conn events headers is_ctl ((got_line text, bs) ∷ rest) =
      let later = serve_conn events headers is_ctl rest in
      if is_ctl text
      then serve_ctl headers bs text
      else with_event bs (decode events host text) ++ later
