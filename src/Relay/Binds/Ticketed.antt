-- ===== src/Relay/Binds/Ticketed.antt =====
-- With which tickets a worker is bound: src/relay_session.rs and src/node.rs.
use iicp_client_rust.Base.{
  ℕ, String, ◌==◌, eq_iff, ◌≡◌, refl, sym, ap, ◌∙◌, subst, true, false, not, ◌&&◌, ◌⊎◌, inl, inr,
  Option, none, List, some, Result, ok, err, arith, Bool-cases, Option-cases,
}
use iicp_client_rust.Base.Words.{ℤ, gtb}
use iicp_client_rust.Base.Dict.{get}
use iicp_client_rust.Relay.Tickets.{
  RelayBindTicketClaims, verify_relay_bind_ticket, claims_hold, consume_relay_bind_ticket,
}
use iicp_client_rust.Relay.Tickets.Replays.{get-unexpired, consume-get}
use iicp_client_rust.Relay.Sessions.{Registry}
use iicp_client_rust.Relay.Binds.{
  Relay, BindConfig, BindRequest, BindError, TicketKeys, ticket_required, use_ticket, tcp_claims,
  http_claims, claims_of, by_worker, tcp_binds, http_binds, admit_counted, admit, finish, admitted,
  tcp_bind, http_bind,
}
use iicp_client_rust.Relay.Binds.Quiet.{quiet}

-- No use of the identifier is on record, or its ticket had run out when this one was consumed.
abbrev pub IsUnused : String → ℤ → List (String × ℤ) → Type 0
IsUnused jti now seen =
    (get jti seen ≡ none) ⊎ ((exp : ℤ) × (get jti seen ≡ some exp) × (gtb exp now ≡ false))

-- A bind with a ticket that was signed under the key for the worker and the relay and had not run out, whose
-- identifier was not on record as used, and is now.
pub record IsTicketed (open_ticket : TicketKeys) (config : BindConfig) (key : String) (s t : Relay)
    (request : BindRequest) : Type 0 where
  pub claims : RelayBindTicketClaims
  pub signed : open_ticket request.bind_ticket key ≡ some claims
  pub kind : claims.typ ≡ "relay-bind-ticket"
  pub worker : claims.sub ≡ request.worker_id
  pub relay : (claims.aud ≡ "*") ⊎ (claims.aud ≡ config.relay_node_id)
  pub live : gtb claims.exp request.verified_at ≡ true
  pub unused : IsUnused claims.jti request.consumed_at s.seen
  pub recorded : get claims.jti t.seen ≡ some claims.exp

claims_hold-parts :
    (claims : RelayBindTicketClaims) (worker_id relay_audience : String) (now : ℤ)
    → claims_hold claims worker_id relay_audience now ≡ true
    → (claims.typ ≡ "relay-bind-ticket")
      × (claims.sub ≡ worker_id)
      × ((claims.aud ≡ "*") ⊎ (claims.aud ≡ relay_audience))
      × (gtb claims.exp now ≡ true)
unfolding claims_hold
claims_hold-parts claims worker_id relay_audience now h = (
  ground (arith, eq_iff claims.typ "relay-bind-ticket"),
  ground (arith, eq_iff claims.sub worker_id),
  elim (Bool-cases (claims.aud == "*")) [
    | inl any ↦ inl ((eq_iff claims.aud "*").0 any)
    | inr other ↦ inr (ground (arith, eq_iff claims.aud relay_audience))
  ],
  ground arith,
)

-- A ticket that is accepted is unused.
consume-IsUnused :
    (seen : List (String × ℤ)) (claims : RelayBindTicketClaims) (now : ℤ)
    → (consume_relay_bind_ticket seen claims now).1 ≡ true
    → IsUnused claims.jti now seen
unfolding consume_relay_bind_ticket
consume-IsUnused seen claims now h = elim (Option-cases (get claims.jti seen)) [
  | inl missing ↦ inl missing
  | inr (exp, found) ↦ elim (Bool-cases (gtb exp now)) [
    | inl live ↦
        let known = get-unexpired claims.jti exp now seen live found in absurd (ground arith)
    | inr gone ↦ inr (exp, found, gone)
  ]
]

admit_ok-used :
    (s : Relay) (request : BindRequest) (claims : RelayBindTicketClaims)
    → (admit quiet s request (some claims)).1 ≡ ok tt
    → ((consume_relay_bind_ticket s.seen claims request.consumed_at).1 ≡ true)
      × ((admit quiet s request (some claims)).0.seen
          ≡ (consume_relay_bind_ticket s.seen claims request.consumed_at).0)
unfolding admit admit_counted use_ticket
admit_ok-used s request claims h = (ground arith, ground arith)

claims_of-hold :
    (open_ticket : TicketKeys) (config : BindConfig) (request : BindRequest) (key : String)
    (claims : Option RelayBindTicketClaims)
    → claims_of open_ticket config request key ≡ ok claims
    → (c : RelayBindTicketClaims) × (claims ≡ some c)
      × (open_ticket request.bind_ticket key ≡ some c)
      × (claims_hold c request.worker_id config.relay_node_id request.verified_at ≡ true)
unfolding verify_relay_bind_ticket
claims_of-hold open_ticket config request key claims h =
    elim (Option-cases (open_ticket request.bind_ticket key)) [
      | inl missing ↦ absurd (ground arith)
      | inr (c, found) ↦ (c, ground arith, found, ground arith)
    ]

finish_ok :
    (binds : Registry → Registry) (o : Relay × Result BindError (Unit {0}))
    → (finish quiet binds o).1 ≡ ok tt
    → (o.1 ≡ ok tt) × ((finish quiet binds o).0.seen ≡ o.0.seen)
finish_ok binds (t, err e) h = absurd (ground arith)
finish_ok binds (t, ok done) h = (refl, refl)

-- What is left of a bind whose ticket was verified.
admitted-IsTicketed :
    (open_ticket : TicketKeys) (config : BindConfig) (key : String) (s : Relay)
    (request : BindRequest) (binds : Registry → Registry)
    (checked : Result BindError (Option RelayBindTicketClaims))
    → checked ≡ claims_of open_ticket config request key
    → (admitted quiet binds s request checked).1 ≡ ok tt
    → IsTicketed open_ticket config key s (admitted quiet binds s request checked).0 request
admitted-IsTicketed open_ticket config key s request binds (err e) same h = absurd (ground arith)
admitted-IsTicketed open_ticket config key s request binds (ok claims) same h =
    let (c, is_some, signed, hold) =
      claims_of-hold open_ticket config request key claims (sym same) in
    let (passes, kept) = finish_ok binds (admit quiet s request claims) h in
    let parts =
      claims_hold-parts c request.worker_id config.relay_node_id request.verified_at hold in
    let (fresh, used) = admit_ok-used s request c (rw (← is_some) passes) in
    record {
      claims = c;
      signed = signed;
      kind = parts.0;
      worker = parts.1;
      relay = parts.2;
      live = parts.3;
      unused = consume-IsUnused s.seen c request.consumed_at fresh;
      recorded =
          ap (get c.jti) (kept ∙ ap (λ o. (admit quiet s request o).0.seen) is_some ∙ used)
          ∙ consume-get s.seen c request.consumed_at fresh;
    }

tcp_claims_checked :
    (open_ticket : TicketKeys) (config : BindConfig) (request : BindRequest) (key : String)
    → config.require_bind_ticket ≡ true
    → config.bind_ticket_public_key_hex ≡ some key
    → (tcp_claims open_ticket config request ≡ claims_of open_ticket config request key)
      ⊎ (tcp_claims open_ticket config request ≡ err ticket_required)
unfolding tcp_claims
tcp_claims_checked open_ticket config request key required has_key =
    elim (Bool-cases (request.bind_ticket == "")) [
      | inl missing ↦ inr (rw (missing, required) refl)
      | inr given ↦ inl (rw (given, has_key) refl)
    ]

http_claims_checked :
    (open_ticket : TicketKeys) (config : BindConfig) (request : BindRequest) (key : String)
    → config.require_bind_ticket ≡ true
    → config.bind_ticket_public_key_hex ≡ some key
    → (http_claims open_ticket config request ≡ claims_of open_ticket config request key)
      ⊎ (http_claims open_ticket config request ≡ err ticket_required)
unfolding http_claims
http_claims_checked open_ticket config request key required has_key =
    elim (Bool-cases (not (request.bind_ticket == "") && not (key == ""))) [
      | inl given ↦ inl (rw (has_key, given) refl)
      | inr missing ↦ inr (rw (has_key, missing, required) refl)
    ]

passed-IsTicketed :
    (open_ticket : TicketKeys) (config : BindConfig) (key : String) (s t : Relay)
    (request : BindRequest) (binds : Registry → Registry)
    (checked : Result BindError (Option RelayBindTicketClaims))
    → (checked ≡ claims_of open_ticket config request key) ⊎ (checked ≡ err ticket_required)
    → admitted quiet binds s request checked ≡ (t, ok tt)
    → IsTicketed open_ticket config key s t request
passed-IsTicketed open_ticket config key s t request binds checked (inl same) h =
    subst (λ u. IsTicketed open_ticket config key s u request) (ap (λ o. o.0) h)
      (admitted-IsTicketed open_ticket config key s request binds checked same (ap (λ o. o.1) h))
passed-IsTicketed open_ticket config key s t request binds checked (inr refused) h =
    let met = rw refused at h in absurd (ground arith)

-- Where tickets are required and the directory's key is known, a worker is bound, over TCP or HTTP, only
-- with a ticket of the kind for binds that is signed under the key for this worker and for this relay, or any,
-- and had not run out when it was verified. No use of its identifier was on record, or only that of a ticket
-- that had run out when this one was consumed; and the identifier is then on record until the ticket runs out.
-- This holds if nothing else happens between the locks.
pub bind-IsTicketed :
    (open_ticket : TicketKeys) (config : BindConfig) (s : Relay) (request : BindRequest)
    (handle : ℕ) (token key : String) (t : Relay)
    → config.require_bind_ticket ≡ true
    → config.bind_ticket_public_key_hex ≡ some key
    → (tcp_bind open_ticket config quiet s request handle ≡ (t, ok tt))
      ⊎ (http_bind open_ticket config quiet s request handle token ≡ (t, ok tt))
    → IsTicketed open_ticket config key s t request
unfolding tcp_bind http_bind
bind-IsTicketed open_ticket config s request handle token key t required has_key (inl h) =
    elim (Bool-cases (request.worker_id == "")) [
      | inl nobody ↦ absurd (ground arith)
      | inr somebody ↦
          passed-IsTicketed open_ticket config key s t request (tcp_binds request handle)
            (tcp_claims open_ticket config request)
            (tcp_claims_checked open_ticket config request key required has_key) (rw somebody at h)
    ]
bind-IsTicketed open_ticket config s request handle token key t required has_key (inr h) =
    elim (Bool-cases (request.worker_id == "")) [
      | inl nobody ↦ absurd (ground arith)
      | inr somebody ↦
          let v =
            passed-IsTicketed open_ticket config key s t (by_worker request)
              (http_binds request handle token) (http_claims open_ticket config request)
              (http_claims_checked open_ticket config request key required has_key)
              (rw somebody at h) in
          record {
            claims = v.claims;
            signed = v.signed;
            kind = v.kind;
            worker = v.worker;
            relay = v.relay;
            live = v.live;
            unused = v.unused;
            recorded = v.recorded;
          }
    ]
