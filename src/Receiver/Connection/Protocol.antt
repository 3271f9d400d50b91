-- ===== src/Receiver/Connection/Protocol.antt =====
-- internal/receiver/listener.go: the order of a connection's effects, and whom they concern.

use agterm_remote.Bindings.{Binding}
use agterm_remote.Int.{ℤ}
use agterm_remote.Prelude.{List, Member, [], map, ◌∷◌, ◌≡◌}
use agterm_remote.Receiver.Connection.{
  CtlRefusal, CtlRequest, Effect, acks, calls, exits, marks_alive, pushes, refuses,
}
use agterm_remote.Receiver.Events.{StatusArgs}
use agterm_remote.Receiver.Events.Owned.{Owns}
use agterm_remote.Receiver.Lines.{LineRead}
use agterm_remote.Result.{Result}
use agterm_remote.Text.{Bytes}

-- The caller of a request is a binding of this host for the session that the header names.
pub record IsOwnCall (host : Bytes) (bs : List Binding) (q : CtlRequest) : Type 0 where
  pub is_bound : Member q.caller bs
  pub own_host : q.caller.host ≡ host
  pub own_name : q.caller.name ≡ q.header.session
  pub sent_host : q.host ≡ host

-- The effects of the call that ends a connection: before the ack there is no effect but a refusal,
-- and behind it the body is refused, or the one call runs and its exit follows.
pub data CtlEffects (host : Bytes) (bs : List Binding) : List Effect → Type 0 where
  unread : (r : CtlRefusal) → CtlEffects host bs (refuses r ∷ [])
  refused_unacked : (r : CtlRefusal) → CtlEffects host bs (marks_alive ∷ refuses r ∷ [])
  unacked : CtlEffects host bs (marks_alive ∷ [])
  acked_only : CtlEffects host bs (marks_alive ∷ acks ∷ [])
  refused_acked : (r : CtlRefusal) → CtlEffects host bs (marks_alive ∷ acks ∷ refuses r ∷ [])
  called :
      (q : CtlRequest) (code : ℤ)
      → IsOwnCall host bs q
      → CtlEffects host bs (marks_alive ∷ acks ∷ calls q ∷ exits code ∷ [])

-- The effects of a connection: events, each with at most one push to a row that the host then owned,
-- and at most one call, at the end.
pub data Protocol (host : Bytes) (known : List (List Binding)) : List Effect → Type 0 where
  ended : Protocol host known []
  plain_event :
      {rest : List Effect} → Protocol host known rest → Protocol host known (marks_alive ∷ rest)
  status_event :
      {rest : List Effect} {target : Bytes} {args : StatusArgs}
      → (bs : List Binding) → Member bs known
      → Owns host bs target
      → Protocol host known rest
      → Protocol host known (marks_alive ∷ pushes target args ∷ rest)
  last_call :
      {effects : List Effect}
      → (bs : List Binding) → Member bs known
      → CtlEffects host bs effects
      → Protocol host known effects

abbrev pub bindings_of : List (LineRead × List Binding) → List (List Binding)
bindings_of = map (λ (l : LineRead × List Binding). l.1)
