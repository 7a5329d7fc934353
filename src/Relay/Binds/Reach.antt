-- ===== src/Relay/Binds/Reach.antt =====
-- Any history of a relay: src/relay_session.rs and the relay endpoints of src/node.rs.
use iicp_client_rust.Base.{
  ℕ, String, ◌==◌, ◌≡◌, refl, inl, inr, Option, none, some, Result, ok, err, arith, Bool-cases,
  Option-cases,
}
use iicp_client_rust.Base.Dict.{get, insert, contains_key}
use iicp_client_rust.Relay.Tickets.{RelayBindTicketClaims}
use iicp_client_rust.Relay.Sessions.{
  Registry, RelaySession, tcp, http_poll, allow_bind, at_capacity, bind, get_by_token,
}
use iicp_client_rust.Relay.Binds.{
  Relay, BindConfig, BindRequest, BindError, TicketKeys, is_bound_alive, use_ticket, admit_counted,
  admit, finish, admitted, tcp_bind, http_bind, tcp_claims, http_claims, poll_session, by_worker,
  tcp_binds, http_binds, unbind_endpoint,
}
use iicp_client_rust.Relay.Binds.Capacity.{
  IsWithin, HasRoom, Access, closes, frees, counts, uses, Accesses, none_yet, follow, BindsNone,
  worker_of, Accesses-IsWithin, Accesses-HasRoom, at_capacity-HasRoom, bind-IsWithin,
}

-- What the guards of a bind leave: no session more, and room for the worker if they pass.
abbrev IsAdmission : BindRequest → Relay × Result BindError (Unit {0}) → Type 0
IsAdmission request o = IsWithin o.0 × (o.1 ≡ ok tt → HasRoom request.worker_id o.0)

one : {s t : Relay} → Access s t → Accesses s t
one access = follow none_yet access

join : {s t u : Relay} → Accesses s t → Accesses t u → Accesses s u
join a none_yet = a
join a (follow b access) = follow (join a b) access

module _ (others : ℕ → Relay → Relay) (calm : BindsNone others) where
  use_ticket-Accesses :
      (s : Relay) (request : BindRequest) (claims : Option RelayBindTicketClaims)
      → Accesses s (use_ticket others s request claims).0
  unfolding use_ticket
  use_ticket-Accesses s request none = none_yet
  use_ticket-Accesses s request (some claims) =
      follow (calm 3 s) (uses claims request.consumed_at refl)

  admit_counted-IsAdmission :
      (s : Relay) (request : BindRequest) (claims : Option RelayBindTicketClaims)
      → IsWithin s
      → IsAdmission request (admit_counted others s request claims)
  unfolding admit_counted
  admit_counted-IsAdmission s request claims v =
      let met = Accesses-IsWithin (calm 2 s) v in
      let used = use_ticket-Accesses (others 2 s) request claims in
      elim (Bool-cases (at_capacity (others 2 s).registry request.worker_id)) [
        | inl full ↦ rw full (met, λ h. absurd (ground arith))
        | inr free ↦ rw free (
          Accesses-IsWithin used met,
          λ h.
              Accesses-HasRoom request.worker_id used
                (at_capacity-HasRoom (others 2 s) request.worker_id met free),
        )
      ]

  admit-IsAdmission :
      (s : Relay) (request : BindRequest) (claims : Option RelayBindTicketClaims)
      → IsWithin s
      → IsAdmission request (admit others s request claims)
  unfolding admit
  admit-IsAdmission s request claims v =
      let worker = request.worker_id in
      let second = others 0 s in
      let third = others 1 second in
      let rebind = contains_key worker second.registry.sessions in
      let counted = allow_bind third.registry request.source rebind request.counted_at in
      let after : Relay = record third { registry = counted.0 } in
      let reached : Accesses s after =
        follow (join (calm 0 s) (calm 1 second))
          (counts request.source rebind request.counted_at refl) in
      let met = Accesses-IsWithin reached v in
      elim (Bool-cases
        (is_bound_alive s.registry request.checked_at (get worker s.registry.sessions))) [
          | inl bound ↦ rw bound (v, λ h. absurd (ground arith))
          | inr free ↦ elim (Bool-cases counted.1) [
            | inl allows ↦ rw (free, allows) (admit_counted-IsAdmission after request claims met)
            | inr refuses ↦ rw (free, refuses) (met, λ h. absurd (ground arith))
          ]
        ]

  module _ (request : BindRequest) (binds : Registry → Registry) (session : RelaySession)
      (inserts : (r : Registry) → (binds r).sessions ≡ insert request.worker_id session r.sessions)
      (own : worker_of session ≡ request.worker_id) where
    finish-IsWithin :
        (o : Relay × Result BindError (Unit {0}))
        → IsAdmission request o
        → IsWithin (finish others binds o).0
    finish-IsWithin (t, err e) (v, room) = v
    finish-IsWithin (t, ok done) (v, room) =
        let met = Accesses-IsWithin (calm 4 t) v in
        let free = Accesses-HasRoom request.worker_id (calm 4 t) (room refl) in
        bind-IsWithin (others 4 t) _ request.worker_id session (inserts (others 4 t).registry) own
          free met

    admitted-IsWithin :
        (s : Relay) (checked : Result BindError (Option RelayBindTicketClaims))
        → IsWithin s
        → IsWithin (admitted others binds s request checked).0
    admitted-IsWithin s (err e) v = v
    admitted-IsWithin s (ok claims) v =
        finish-IsWithin (admit others s request claims) (admit-IsAdmission s request claims v)

  tcp_bind-IsWithin :
      (open_ticket : TicketKeys) (config : BindConfig) (s : Relay) (request : BindRequest)
      (handle : ℕ)
      → IsWithin s
      → IsWithin (tcp_bind open_ticket config others s request handle).0
  unfolding tcp_bind bind
  tcp_bind-IsWithin open_ticket config s request handle v =
      elim (Bool-cases (request.worker_id == "")) [
        | inl nobody ↦ rw nobody v
        | inr somebody ↦
            let session = tcp (record { worker_id = request.worker_id; handle = handle }) in
            rw somebody (
              admitted-IsWithin request (tcp_binds request handle) session (λ r. refl) refl s
                (tcp_claims open_ticket config request) v)
      ]

  http_bind-IsWithin :
      (open_ticket : TicketKeys) (config : BindConfig) (s : Relay) (request : BindRequest)
      (handle : ℕ) (token : String)
      → IsWithin s
      → IsWithin (http_bind open_ticket config others s request handle token).0
  unfolding http_bind bind
  http_bind-IsWithin open_ticket config s request handle token v =
      elim (Bool-cases (request.worker_id == "")) [
        | inl nobody ↦ rw nobody v
        | inr somebody ↦
            let session = http_poll (poll_session request handle token) in
            rw somebody (
              admitted-IsWithin (by_worker request) (http_binds request handle token) session
                (λ r. refl) refl s (http_claims open_ticket config request) v)
      ]

  unbind_endpoint-Accesses :
      (s : Relay) (token : String) → Accesses s (unbind_endpoint others s token).0
  unfolding unbind_endpoint
  unbind_endpoint-Accesses s token = elim (Option-cases (get_by_token s.registry token)) [
    | inl missing ↦ rw (missing, unbind_endpoint) none_yet
    | inr (session, found) ↦
        rw (found, unbind_endpoint)
          (follow (join (follow (calm 0 s) (closes session refl)) (calm 1 _))
            (frees session.worker_id refl))
  ]

-- What happens at a relay: binds and unbinds, with what happens between their locks, and accesses alone.
pub data Step (s t : Relay) : Type 0 where
  binds_tcp :
      (open_ticket : TicketKeys) (config : BindConfig) (others : ℕ → Relay → Relay)
      (request : BindRequest) (handle : ℕ)
      → BindsNone others
      → t ≡ (tcp_bind open_ticket config others s request handle).0
      → Step s t
  binds_http :
      (open_ticket : TicketKeys) (config : BindConfig) (others : ℕ → Relay → Relay)
      (request : BindRequest) (handle : ℕ) (token : String)
      → BindsNone others
      → t ≡ (http_bind open_ticket config others s request handle token).0
      → Step s t
  unbinds :
      (others : ℕ → Relay → Relay) (token : String)
      → BindsNone others
      → t ≡ (unbind_endpoint others s token).0
      → Step s t
  accesses : Access s t → Step s t

Step-IsWithin : {s t : Relay} → Step s t → IsWithin s → IsWithin t
Step-IsWithin {s} {t} (binds_tcp open_ticket config others request handle calm e) v =
    rw e (tcp_bind-IsWithin others calm open_ticket config s request handle v)
Step-IsWithin {s} {t} (binds_http open_ticket config others request handle token calm e) v =
    rw e (http_bind-IsWithin others calm open_ticket config s request handle token v)
Step-IsWithin {s} {t} (unbinds others token calm e) v =
    rw e (Accesses-IsWithin (unbind_endpoint-Accesses others calm s token) v)
Step-IsWithin {s} {t} (accesses access) v = Accesses-IsWithin (one access) v

pub data Reach (s : Relay) : Relay → Type 0 where
  here : Reach s s
  next : {t u : Relay} → Reach s t → Step t u → Reach s u

-- A relay holds at most 256 sessions, each under the identifier of its worker, and each worker at most once,
-- as long as no session is bound between the locks of a bind or an unbind. Between them connections may end,
-- sessions be pulled, closed and unbound, channels hang up, and other binds be counted and their tickets used.
pub Reach-IsWithin : {s t : Relay} → Reach s t → IsWithin s → IsWithin t
Reach-IsWithin here v = v
Reach-IsWithin (next r step) v = Step-IsWithin step (Reach-IsWithin r v)
