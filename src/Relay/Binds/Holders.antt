-- ===== src/Relay/Binds/Holders.antt =====
-- Who may take the place of a session: src/relay_session.rs and src/node.rs.
use iicp_client_rust.Base.{
  ℕ, String, ◌==◌, ◌≡◌, refl, sym, ◌∙◌, subst, true, false, inl, inr, Option, some, Result, ok, err,
  Bool-cases, String-cases,
}
use iicp_client_rust.Base.Dict.{get, insert, get-insert}
use iicp_client_rust.Relay.Tickets.{RelayBindTicketClaims}
use iicp_client_rust.Relay.Sessions.{Registry, RelaySession, tcp, http_poll, is_alive, bind}
use iicp_client_rust.Relay.Binds.{
  Relay, BindConfig, BindRequest, BindError, TicketKeys, already_bound, tcp_claims, http_claims,
  poll_session, by_worker, tcp_binds, http_binds, admit, finish, admitted, tcp_bind, http_bind,
}
use iicp_client_rust.Relay.Binds.Quiet.{quiet, IsAdmission, admit-IsAdmission}

-- A worker that has a session that is alive is not bound again, whatever else happens at the relay.
admit_alive :
    (others : ℕ → Relay → Relay) (s : Relay) (request : BindRequest)
    (claims : Option RelayBindTicketClaims) (x : RelaySession)
    → get request.worker_id s.registry.sessions ≡ some x
    → is_alive s.registry request.checked_at x ≡ true
    → admit others s request claims ≡ (s, err already_bound)
unfolding admit
admit_alive others s request claims x found alive = rw (found, alive) refl

module _ (request : BindRequest) (binds : Registry → Registry) (session : RelaySession)
    (inserts : (r : Registry) → (binds r).sessions ≡ insert request.worker_id session r.sessions)
    (w : String) (x : RelaySession) where
  finish_other :
      (s : Relay) (o : Relay × Result BindError (Unit {0}))
      → IsAdmission s request o
      → (request.worker_id == w) ≡ false
      → get w (finish quiet binds o).0.registry.sessions ≡ get w s.registry.sessions
  finish_other s (t, err e) (same, room) other = rw same refl
  finish_other s (t, ok done) (same, room) other =
      rw
        (
          inserts t.registry,
          same,
          get-insert request.worker_id w session s.registry.sessions,
          other,
        )
        refl

  admitted_keeps :
      (s : Relay) (checked : Result BindError (Option RelayBindTicketClaims))
      → get w s.registry.sessions ≡ some x
      → is_alive s.registry request.checked_at x ≡ true
      → get w (admitted quiet binds s request checked).0.registry.sessions ≡ some x
  admitted_keeps s (err e) found alive = found
  admitted_keeps s (ok claims) found alive = elim (String-cases request.worker_id w) [
    | inl own ↦
        let refused =
          admit_alive quiet s request claims x
            (subst (λ k. get k s.registry.sessions ≡ some x) (sym own) found) alive in
        rw refused found
    | inr other ↦
        finish_other s (admit quiet s request claims) (admit-IsAdmission s request claims) other
        ∙ found
  ]

-- A bind over TCP and one over HTTP leave a session that is alive where it is, whichever worker asks and
-- with whatever ticket, if nothing else happens between their locks.
pub bind-get_alive :
    (open_ticket : TicketKeys) (config : BindConfig) (s : Relay) (request : BindRequest)
    (handle : ℕ) (token w : String) (x : RelaySession)
    → get w s.registry.sessions ≡ some x
    → is_alive s.registry request.checked_at x ≡ true
    → (get w (tcp_bind open_ticket config quiet s request handle).0.registry.sessions ≡ some x)
      × (get w (http_bind open_ticket config quiet s request handle token).0.registry.sessions
          ≡ some x)
unfolding tcp_bind http_bind bind
bind-get_alive open_ticket config s request handle token w x found alive =
    elim (Bool-cases (request.worker_id == "")) [
      | inl nobody ↦ rw nobody (found, found)
      | inr somebody ↦
          let over_tcp = tcp (record { worker_id = request.worker_id; handle = handle }) in
          let over_http = http_poll (poll_session request handle token) in
          rw somebody (
            admitted_keeps request (tcp_binds request handle) over_tcp (λ r. refl) w x s
                (tcp_claims open_ticket config request) found alive,
            admitted_keeps (by_worker request) (http_binds request handle token) over_http
                (λ r. refl) w x s (http_claims open_ticket config request) found alive,
          )
    ]
