-- ===== src/Receiver/Events/Owned.antt =====
-- internal/receiver/listener.go: the rows that a status may go to.
-- A binding of the host holds the row.
use agterm_remote.Bindings.{Binding, by_host_name, for_row, is_session}
use agterm_remote.Prelude.{
  All-kept, All-member, Bool, Bool-cases, List, Member, Member-filter, Option, [], arith, filter,
  find-Member, find-holds, here, if_cases, if◌then◌else◌, inl, inr, is_nil, none, not, refl, some,
  subst, there, true, ◌∷◌, ◌≡◌,
}
use agterm_remote.Proxy.Rewrite.{named}
use agterm_remote.Receiver.Events.{
  Event, StatusArgs, any_of_host, route, row_bound, status_args, to_binding,
}
use agterm_remote.Text.{Bytes, bytes_eq, bytes_eq_iff}
use mathlib.Core.Bool.{false≢true}
use mathlib.Core.Option.{some-injective}

pub record Owns (host : Bytes) (bs : List Binding) (row : Bytes) : Type 0 where
  pub binding : Binding
  pub is_bound : Member binding bs
  pub of_host : binding.host ≡ host
  pub of_row : binding.row ≡ row

any_of_host-Member :
    (host : Bytes) (bs : List Binding)
    → any_of_host host bs ≡ true
    → (b : Binding) × Member b bs × (b.host ≡ host)
unfolding any_of_host
any_of_host-Member host [] h = absurd (false≢true h)
any_of_host-Member host (b ∷ bs) h = elim (Bool-cases (bytes_eq b.host host)) [
  | inl e ↦ (b, here, (bytes_eq_iff b.host host).0 e)
  | inr e ↦ let (c, m, q) = any_of_host-Member host bs (rw e at h) in (c, there m, q)
]

row_bound-Owns :
    (host : Bytes) (bs : List Binding) (row : Bytes)
    → row_bound host bs row ≡ true
    → Owns host bs row
unfolding row_bound for_row
row_bound-Owns host bs row h =
    let at_row : Binding → Bool = λ (b : Binding). bytes_eq b.row row in
    let (b, m, q) = any_of_host-Member host (filter at_row bs) h in
    record {
      binding = b;
      is_bound = Member-filter at_row bs m;
      of_host = q;
      of_row =
          (bytes_eq_iff b.row row).0
            (All-member (λ x. at_row x ≡ true) (filter at_row bs) (All-kept at_row bs) m);
    }

-- What the database finds for a session of a host is a binding of that session and host.
pub by_host_name-own :
    (host name : Bytes) (bs : List Binding) {b : Binding}
    → by_host_name host name bs ≡ some b
    → Member b bs × (b.host ≡ host) × (b.name ≡ name)
unfolding by_host_name
by_host_name-own host name bs {b} q =
    let t : is_session host name b ≡ true = find-holds (is_session host name) bs q in
    (
      find-Member (is_session host name) bs q,
      (bytes_eq_iff b.host host).0 (ground (arith, t)),
      (bytes_eq_iff b.name name).0 (ground (arith, t)),
    )

module _ (host : Bytes) (bs : List Binding) where
  -- What may be pushed: the status of the event, to a row that the host owns, and for a session to the
  -- pane of its binding.
  pub record Pushed (e : Event) (out : Bytes × StatusArgs) : Type 0 where
    pub owned : Owns host bs out.0
    pub state_kept : out.1.status ≡ e.state

  to_binding-Pushed :
      (e : Event) (o : Option Binding) {out : Bytes × StatusArgs}
      → by_host_name host e.session bs ≡ o
      → to_binding (status_args e) o ≡ some out
      → Pushed e out
  unfolding status_args
  to_binding-Pushed e none q h = cc
  to_binding-Pushed e (some b) q h =
      let (m, own, named) = by_host_name-own host e.session bs q in
      let pushed : Bytes × StatusArgs =
        (b.row, record (status_args e) { pane = b.pane; pane_id = b.pane_id }) in
      subst (Pushed e) (some-injective pushed _ h) (record {
        owned = record { binding = b; is_bound = m; of_host = own; of_row = refl };
        state_kept = refl;
      })

  -- A status that an event of a host pushes has the state of the event, and its target is a row that a
  -- binding of this host holds.
  pub route-Pushed :
      (e : Event) {out : Bytes × StatusArgs} → route host bs e ≡ some out → Pushed e out
  unfolding route status_args
  route-Pushed e {out} h =
      elim (if_cases (λ x. x ≡ some out) (not (is_nil e.session))
        (to_binding (status_args e) (by_host_name host e.session bs))
        (if row_bound host bs e.session_id then some (e.session_id, status_args e) else none) h) [
          | inl (_, q) ↦ to_binding-Pushed e (by_host_name host e.session bs) refl q
          | inr (_, q) ↦
              elim (if_cases (λ x. x ≡ some out) (row_bound host bs e.session_id)
                (some (e.session_id, status_args e)) none q) [
                  | inl (r, w) ↦
                      subst (Pushed e) (some-injective (e.session_id, status_args e) out w)
                        (record {
                          owned = row_bound-Owns host bs e.session_id r;
                          state_kept = refl;
                        })
                  | inr (_, w) ↦ cc
                ]
        ]
