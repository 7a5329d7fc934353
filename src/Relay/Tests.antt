-- ===== src/Relay/Tests.antt =====
-- Runs of a relay, and its theorems at concrete inputs.
use iicp_client_rust.Base.{
  ℕ, ◌*◌, ◌≤◌, ◌≡◌, refl, sym, ap, true, false, List, [], ◌∷◌, none, some, ok, err, inl, arith,
  if◌then◌else◌, ◌==◌,
}
use iicp_client_rust.Base.Words.{pos}
use iicp_client_rust.Base.Dict.{get, insert}
use iicp_client_rust.Relay.Tickets.{
  RelayBindTicketClaims, consume_relay_bind_ticket, claims_hold, verify_relay_bind_ticket,
}
use iicp_client_rust.Relay.Tickets
use iicp_client_rust.Relay.Tickets.Replays.{presented, consume_relay_bind_ticket_once}
use iicp_client_rust.Relay.Sessions.{tcp, allow_bind, at_capacity, is_alive, bind}
use iicp_client_rust.Relay.Sessions.Rates.{Attempt, allowed, allowed-limit_le}
use iicp_client_rust.Relay.Binds.{
  Relay, BindConfig, BindRequest, TicketKeys, tcp_bind, http_bind, tcp_claims, http_claims, admit,
  admit_counted, use_ticket, already_bound, ticket_required,
}
use iicp_client_rust.Relay.Binds.Quiet.{quiet}
use iicp_client_rust.Relay.Binds.Capacity.{IsWithin, hangs_up, none_yet, follow}
use iicp_client_rust.Relay.Binds.Reach.{binds_tcp, binds_http, here, next, Reach-IsWithin}
use iicp_client_rust.Relay.Binds.Holders.{bind-get_alive}
use iicp_client_rust.Relay.Binds.Ticketed.{IsTicketed, bind-IsTicketed}

abbrev claims : RelayBindTicketClaims
claims = record {
  v = 1;
  typ = "relay-bind-ticket";
  jti = "01010101010101010101010101010101";
  iss = "directory";
  sub = "w1";
  aud = "*";
  iat = pos 1;
  exp = pos 100;
}

-- The one key signs the one ticket.
abbrev open_ticket : TicketKeys
open_ticket token key =
    if token == "ticket" then if key == "key" then some claims else none else none

abbrev config : BindConfig
config = record {
  require_bind_ticket = true;
  bind_ticket_public_key_hex = some "key";
  relay_node_id = "relay";
}

abbrev bind_request : BindRequest
bind_request = record {
  source = "10.0.0.1";
  worker_id = "w1";
  intent = "";
  models = [];
  bind_ticket = "ticket";
  verified_at = pos 10;
  checked_at = 10000;
  counted_at = 10000;
  consumed_at = pos 10;
  bound_at = 10000;
}

abbrev empty : Relay
empty = record {
  registry = record {
    sessions = [];
    bind_rate_limit = 2;
    bind_rate_buckets = [];
    closed = [];
    last_pull = λ h. 0;
  };
  seen = [];
}

abbrev bound : Relay
bound = record {
  registry = record empty.registry {
    sessions = ("w1", tcp (record { worker_id = "w1"; handle = 1 })) ∷ [];
    bind_rate_buckets = ("10.0.0.1", (10000, 1)) ∷ [];
  };
  seen = (claims.jti, pos 100) ∷ [];
}

bound_lem : tcp_bind open_ticket config quiet empty bind_request 1 ≡ (bound, ok tt)
unfolding tcp_bind tcp_claims verify_relay_bind_ticket claims_hold admit admit_counted use_ticket
    consume_relay_bind_ticket allow_bind at_capacity bind get insert Tickets.unexpired
bound_lem = refl

-- Without a ticket nobody is bound.
ticket_required_lem :
    http_bind open_ticket config quiet empty (record bind_request { bind_ticket = "" }) 1 "token"
    ≡ (empty, err ticket_required)
unfolding http_bind http_claims
ticket_required_lem = refl

already_bound_lem :
    http_bind open_ticket config quiet bound bind_request 2 "token" ≡ (bound, err already_bound)
unfolding http_bind http_claims verify_relay_bind_ticket claims_hold admit get is_alive
already_bound_lem = refl

consume_relay_bind_ticket_once_example :
    (consume_relay_bind_ticket
      (presented
        (consume_relay_bind_ticket [] claims (pos 10)).0
        ((record claims { jti = "02020202020202020202020202020202" }, pos 11) ∷ []))
      claims
      (pos 12)).1
    ≡ false
unfolding consume_relay_bind_ticket Tickets.unexpired get
consume_relay_bind_ticket_once_example =
    consume_relay_bind_ticket_once [] claims (pos 10)
      ((record claims { jti = "02020202020202020202020202020202" }, pos 11) ∷ []) claims (pos 12)
      refl refl (refl, tt) refl

abbrev attempt_at : ℕ → Attempt
attempt_at now = record { source = "10.0.0.1"; rebind = false; now = now }

abbrev attempts : List Attempt
attempts =
    attempt_at 20000
    ∷ attempt_at 69999
    ∷ attempt_at 70000
    ∷ attempt_at 70001
    ∷ attempt_at 70002
    ∷ []

-- One attempt_at is left of a window that began before, and two of the next.
allowed_lem : allowed bound.registry "10.0.0.1" attempts ≡ 3
unfolding allowed allow_bind get insert
allowed_lem = refl

allowed-limit_le_example : allowed bound.registry "10.0.0.1" attempts ≤ 2 * 2
unfolding get
allowed-limit_le_example =
    allowed-limit_le 20000 bound.registry "10.0.0.1" attempts (ground arith) (refl, tt)
      (
        (omega arith, omega arith),
        (
          (omega arith, omega arith),
          (
            (omega arith, omega arith),
            ((omega arith, omega arith), ((omega arith, omega arith), tt)),
          ),
        ),
      )
      (omega arith)

empty-IsWithin : IsWithin empty
empty-IsWithin = record { few = omega arith; distinct = tt; own = tt }

-- The channel of some session closes in every gap.
abbrev hanging_up : ℕ → Relay → Relay
hanging_up n s = record s { registry = record s.registry { closed = 7 ∷ s.registry.closed } }

Reach-IsWithin_example :
    IsWithin (http_bind open_ticket config hanging_up bound bind_request 2 "token").0
Reach-IsWithin_example =
    Reach-IsWithin
      (next
        (next here (
          binds_tcp open_ticket config quiet bind_request 1 (λ n u. none_yet)
            (ap (λ o. o.0) (sym bound_lem))))
        (binds_http open_ticket config hanging_up bind_request 2 "token"
          (λ n u. follow none_yet (hangs_up 7 refl)) refl))
      empty-IsWithin

bind-get_alive_example :
    (get "w1" (tcp_bind open_ticket config quiet bound bind_request 2).0.registry.sessions
      ≡ some (tcp (record { worker_id = "w1"; handle = 1 })))
    × (get "w1"
          (http_bind open_ticket config quiet bound bind_request 2 "token").0.registry.sessions
        ≡ some (tcp (record { worker_id = "w1"; handle = 1 })))
unfolding get is_alive
bind-get_alive_example =
    bind-get_alive open_ticket config bound bind_request 2 "token" "w1"
      (tcp (record { worker_id = "w1"; handle = 1 })) refl refl

bind-IsTicketed_example : IsTicketed open_ticket config "key" empty bound bind_request
bind-IsTicketed_example =
    bind-IsTicketed open_ticket config empty bind_request 1 "token" "key" bound refl refl
      (inl bound_lem)
