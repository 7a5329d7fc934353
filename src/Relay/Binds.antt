-- ===== src/Relay/Binds.antt =====
-- How a worker is bound to a relay: `handle_relay_connection` of src/relay_session.rs from the RELAY_BIND
-- message to its answer, and `relay_bind_endpoint` of src/node.rs, with the endpoints for a session that is
-- bound over HTTP. A bind takes one lock after another; `others` is what other connections do to the relay
-- between them. The answers that only fail to be sent are left out.
pub mod Capacity
pub mod Quiet
pub mod Reach
pub mod Holders
pub mod Ticketed
use Prim.Native.String.{◌++◌ as append}
use iicp_client_rust.Base.{
  ℕ, String, ◌==◌, Bool, true, false, not, ◌&&◌, ◌||◌, List, [], ◌∷◌, Option, none, some, Result,
  ok, err, eqb, if◌then◌else◌,
}
use iicp_client_rust.Base.Words.{ℤ}
use iicp_client_rust.Base.Dict.{get, contains_key}
use iicp_client_rust.Relay.Tickets.{
  RelayBindTicketClaims, consume_relay_bind_ticket, verify_relay_bind_ticket,
}
use iicp_client_rust.Relay.Sessions.{
  Registry, RelaySession, PollSession, tcp, http_poll, is_alive, allow_bind, at_capacity, bind,
  unbind, close, get_by_token, default_liveness_window,
}

-- The registry, and the identifiers of the tickets that were seen with their expiries.
pub record Relay : Type 0 where
  pub registry : Registry
  pub seen : List (String × ℤ)

pub record BindConfig : Type 0 where
  pub require_bind_ticket : Bool
  pub bind_ticket_public_key_hex : Option String
  pub relay_node_id : String

-- What a worker asks for, with the times at which the code reads a clock. A ticket that is not there is "".
pub record BindRequest : Type 0 where
  pub source : String
  pub worker_id : String
  pub intent : String
  pub models : List String
  pub bind_ticket : String
  pub verified_at : ℤ
  pub checked_at : ℕ
  pub counted_at : ℕ
  pub consumed_at : ℤ
  pub bound_at : ℕ

pub data BindError : Type 0 where
  missing_worker_id : BindError
  ticket_invalid : BindError
  ticket_required : BindError
  already_bound : BindError
  rate_limited : BindError
  session_capacity : BindError
  ticket_replayed : BindError

-- The status with which a bind over HTTP is refused.
unfoldable pub status_code : BindError → ℕ
status_code missing_worker_id = 422
status_code ticket_invalid = 401
status_code ticket_required = 401
status_code already_bound = 409
status_code rate_limited = 429
status_code session_capacity = 503
status_code ticket_replayed = 409

abbrev pub TicketKeys : Type 0
TicketKeys = String → String → Option RelayBindTicketClaims

abbrev pub invalid_or :
    Option RelayBindTicketClaims → Result BindError (Option RelayBindTicketClaims)
invalid_or none = err ticket_invalid
invalid_or (some claims) = ok (some claims)

abbrev pub claims_of :
    TicketKeys → BindConfig → BindRequest → String → Result BindError (Option RelayBindTicketClaims)
claims_of open_ticket config request key = invalid_or (
    verify_relay_bind_ticket open_ticket request.bind_ticket key request.worker_id
      config.relay_node_id request.verified_at)

-- The check of the ticket over TCP: without a key it is not looked at.
unfoldable pub tcp_claims :
    TicketKeys → BindConfig → BindRequest → Result BindError (Option RelayBindTicketClaims)
tcp_claims open_ticket config request =
    if not (request.bind_ticket == "")
    then elim config.bind_ticket_public_key_hex [
      | none ↦ ok none
      | some key ↦ claims_of open_ticket config request key
    ]
    else if config.require_bind_ticket
    then err ticket_required
    else ok none

abbrev pub unwrap_or_empty : Option String → String
unwrap_or_empty none = ""
unwrap_or_empty (some text) = text

-- The check of the ticket over HTTP.
unfoldable pub http_claims :
    TicketKeys → BindConfig → BindRequest → Result BindError (Option RelayBindTicketClaims)
http_claims open_ticket config request =
    let key = unwrap_or_empty config.bind_ticket_public_key_hex in
    if not (request.bind_ticket == "") && not (key == "")
    then claims_of open_ticket config request key
    else if config.require_bind_ticket
    then err ticket_required
    else ok none

abbrev pub is_bound_alive : Registry → ℕ → Option RelaySession → Bool
is_bound_alive r now none = false
is_bound_alive r now (some session) = is_alive r now session

-- The use of the ticket, when one was verified.
unfoldable pub use_ticket :
    (ℕ → Relay → Relay)
    → Relay
    → BindRequest
    → Option RelayBindTicketClaims
    → Relay × Result BindError (Unit {0})
use_ticket others s request none = (s, ok tt)
use_ticket others s request (some claims) =
    let met = others 3 s in
    let (seen, fresh) = consume_relay_bind_ticket met.seen claims request.consumed_at in
    (record met { seen = seen }, if fresh then ok tt else err ticket_replayed)

-- The check of the capacity, and on.
unfoldable pub admit_counted :
    (ℕ → Relay → Relay)
    → Relay
    → BindRequest
    → Option RelayBindTicketClaims
    → Relay × Result BindError (Unit {0})
admit_counted others s request claims =
    let met = others 2 s in
    if at_capacity met.registry request.worker_id
    then (met, err session_capacity)
    else use_ticket others met request claims

-- The guards after the ticket, in order.
unfoldable pub admit :
    (ℕ → Relay → Relay)
    → Relay
    → BindRequest
    → Option RelayBindTicketClaims
    → Relay × Result BindError (Unit {0})
admit others s request claims =
    if is_bound_alive s.registry request.checked_at (get request.worker_id s.registry.sessions)
    then (s, err already_bound)
    else let second = others 0 s in
      let rebind = contains_key request.worker_id second.registry.sessions in
      let third = others 1 second in
      let (registry, allows) = allow_bind third.registry request.source rebind request.counted_at in
      let after = record third { registry = registry } in
      if allows then admit_counted others after request claims else (after, err rate_limited)

-- The end of a bind: a session of the worker takes its place.
abbrev pub finish :
    (ℕ → Relay → Relay)
    → (Registry → Registry)
    → Relay × Result BindError (Unit {0})
    → Relay × Result BindError (Unit {0})
finish others binds (s, err e) = (s, err e)
finish others binds (s, ok _) =
    let met = others 4 s in (record met { registry = binds met.registry }, ok tt)

abbrev pub admitted :
    (ℕ → Relay → Relay)
    → (Registry → Registry)
    → Relay
    → BindRequest
    → Result BindError (Option RelayBindTicketClaims)
    → Relay × Result BindError (Unit {0})
admitted others binds s request (err e) = (s, err e)
admitted others binds s request (ok claims) = finish others binds (admit others s request claims)

-- The session of a worker takes its place; `handle` is that of the new session.
abbrev pub tcp_binds : BindRequest → ℕ → Registry → Registry
tcp_binds request handle r =
    bind r request.worker_id (tcp (record { worker_id = request.worker_id; handle = handle }))

unfoldable pub tcp_bind :
    TicketKeys
    → BindConfig
    → (ℕ → Relay → Relay)
    → Relay
    → BindRequest
    → ℕ
    → Relay × Result BindError (Unit {0})
tcp_bind open_ticket config others s request handle =
    if request.worker_id == ""
    then (s, err missing_worker_id)
    else admitted others (tcp_binds request handle) s request
        (tcp_claims open_ticket config request)

-- `HttpPollWorkerSession::new`, with its token.
abbrev pub poll_session : BindRequest → ℕ → String → PollSession
poll_session request handle token = record {
  worker_id = request.worker_id;
  intent = request.intent;
  models = request.models;
  session_token = token;
  handle = handle;
  liveness_window = default_liveness_window;
}

abbrev pub pulled : Registry → ℕ → ℕ → Registry
pulled r handle now = record r { last_pull = λ h. if eqb h handle then now else r.last_pull h }

abbrev pub http_binds : BindRequest → ℕ → String → Registry → Registry
http_binds request handle token r =
    bind (pulled r handle request.bound_at) request.worker_id
      (http_poll (poll_session request handle token))

-- Over HTTP the source is the worker.
abbrev pub by_worker : BindRequest → BindRequest
by_worker request = record request { source = append "worker:" request.worker_id }

unfoldable pub http_bind :
    TicketKeys
    → BindConfig
    → (ℕ → Relay → Relay)
    → Relay
    → BindRequest
    → ℕ
    → String
    → Relay × Result BindError (Unit {0})
http_bind open_ticket config others s request handle token =
    if request.worker_id == ""
    then (s, err missing_worker_id)
    else admitted others (http_binds request handle token) s (by_worker request)
        (http_claims open_ticket config request)

-- `next_call` of the session with the token notes the time, when it begins and when it ends.
unfoldable pub pull : Relay → String → ℕ → Relay × Bool
pull s token now = elim (get_by_token s.registry token) [
  | none ↦ (s, false)
  | some session ↦ (record s { registry = pulled s.registry session.handle now }, true)
]

-- `relay_unbind_endpoint`, which closes the session and then frees its worker.
unfoldable pub unbind_endpoint : (ℕ → Relay → Relay) → Relay → String → Relay × Bool
unbind_endpoint others s token = elim (get_by_token s.registry token) [
  | none ↦ (s, false)
  | some session ↦
      let met = others 0 s in
      let closed = others 1 (record met { registry = close met.registry session }) in
      (record closed { registry = unbind closed.registry session.worker_id }, true)
]
