-- ===== src/Relay/Binds/Quiet.antt =====
-- A bind of src/relay_session.rs or src/node.rs with nothing else between its locks.
use iicp_client_rust.Base.{
  ℕ, String, ◌≡◌, refl, sym, ap, ◌∙◌, Bool, false, inl, inr, Option, none, some, Result, ok, arith,
  Bool-cases,
}
use iicp_client_rust.Base.Dict.{get, contains_key}
use iicp_client_rust.Relay.Tickets.{RelayBindTicketClaims}
use iicp_client_rust.Relay.Sessions.{Registry, allow_bind, at_capacity}
use iicp_client_rust.Relay.Binds.{
  Relay, BindRequest, BindError, is_bound_alive, use_ticket, admit_counted, admit,
}

-- Nothing else happens between the locks.
abbrev pub quiet : ℕ → Relay → Relay
quiet n s = s

-- What the guards leave: the sessions as they were and, if they pass, room for the worker.
abbrev pub IsAdmission : Relay → BindRequest → Relay × Result BindError (Unit {0}) → Type 0
IsAdmission s request o =
    (o.0.registry.sessions ≡ s.registry.sessions)
    × (o.1 ≡ ok tt → at_capacity s.registry request.worker_id ≡ false)

use_ticket-sessions :
    (s : Relay) (request : BindRequest) (claims : Option RelayBindTicketClaims)
    → (use_ticket quiet s request claims).0.registry ≡ s.registry
unfolding use_ticket
use_ticket-sessions s request none = refl
use_ticket-sessions s request (some claims) = refl

allow_bind-sessions :
    (r : Registry) (source : String) (rebind : Bool) (now : ℕ)
    → (allow_bind r source rebind now).0.sessions ≡ r.sessions
unfolding allow_bind
allow_bind-sessions r source rebind now = ground arith

at_capacity_same :
    (r r' : Registry) (worker_id : String)
    → r'.sessions ≡ r.sessions
    → at_capacity r' worker_id ≡ at_capacity r worker_id
unfolding at_capacity
at_capacity_same r r' worker_id same = rw same refl

admit_counted-IsAdmission :
    (s : Relay) (request : BindRequest) (claims : Option RelayBindTicketClaims)
    → IsAdmission s request (admit_counted quiet s request claims)
unfolding admit_counted
admit_counted-IsAdmission s request claims =
    elim (Bool-cases (at_capacity s.registry request.worker_id)) [
      | inl full ↦ rw full (refl, λ h. absurd (ground arith))
      | inr free ↦ rw free (ap (λ r. r.sessions) (use_ticket-sessions s request claims), λ h. refl)
    ]

pub admit-IsAdmission :
    (s : Relay) (request : BindRequest) (claims : Option RelayBindTicketClaims)
    → IsAdmission s request (admit quiet s request claims)
unfolding admit
admit-IsAdmission s request claims =
    let worker = request.worker_id in
    let alive = is_bound_alive s.registry request.checked_at (get worker s.registry.sessions) in
    let counted =
      allow_bind s.registry request.source (contains_key worker s.registry.sessions)
        request.counted_at in
    let same =
      allow_bind-sessions s.registry request.source (contains_key worker s.registry.sessions)
        request.counted_at in
    let after : Relay = record s { registry = counted.0 } in
    let (kept, room) = admit_counted-IsAdmission after request claims in
    elim (Bool-cases alive) [
      | inl bound ↦ rw bound (refl, λ h. absurd (ground arith))
      | inr free ↦ elim (Bool-cases counted.1) [
        | inl allows ↦
            rw (free, allows)
              (kept ∙ same, λ h. sym (at_capacity_same s.registry counted.0 worker same) ∙ room h)
        | inr refuses ↦ rw (free, refuses) (same, λ h. absurd (ground arith))
      ]
    ]
