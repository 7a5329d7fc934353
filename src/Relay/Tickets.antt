-- ===== src/Relay/Tickets.antt =====
-- src/relay_ticket.rs: the directory's tickets for a bind. `open_ticket` stands for what is not under
-- src/: it decodes a token, checks its signature under a key in hexadecimal, and reads the claims. A time
-- is a number of seconds as an i64.
pub mod Replays
use Prim.Native.String.{len}
use iicp_client_rust.Base.{
  ℕ, String, ◌==◌, Bool, true, false, not, ◌&&◌, ◌||◌, List, [], ◌∷◌, Option, none, some, leb, eqb,
  all, if◌then◌else◌,
}
use iicp_client_rust.Base.Words.{ℤ, gtb}
use iicp_client_rust.Base.Dict.{insert, contains_key}
use iicp_client_rust.Base.Texts.{codes}

pub record RelayBindTicketClaims : Type 0 where
  pub v : ℕ
  pub typ : String
  pub jti : String
  pub iss : String
  pub sub : String
  pub aud : String
  pub iat : ℤ
  pub exp : ℤ

-- `retain(|_, exp| *exp > now_s)`.
unfoldable pub unexpired : ℤ → List (String × ℤ) → List (String × ℤ)
unexpired now [] = []
unexpired now ((jti, exp) ∷ seen) =
    let rest = unexpired now seen in if gtb exp now then (jti, exp) ∷ rest else rest

-- On the tickets that were seen, each with its expiry.
unfoldable pub consume_relay_bind_ticket :
    List (String × ℤ) → RelayBindTicketClaims → ℤ → List (String × ℤ) × Bool
consume_relay_bind_ticket seen claims now =
    if contains_key claims.jti (unexpired now seen)
    then (unexpired now seen, false)
    else (insert claims.jti claims.exp (unexpired now seen), true)

-- `is_ascii_hexdigit` and not upper case.
abbrev pub is_lower_hex : ℕ → Bool
is_lower_hex c = (leb b'0' c && leb c b'9') || (leb b'a' c && leb c b'f')

-- The conditions on the claims of a ticket that is signed.
unfoldable pub claims_hold : RelayBindTicketClaims → String → String → ℤ → Bool
claims_hold claims worker_id relay_audience now =
    claims.typ == "relay-bind-ticket"
    && (eqb (len claims.jti) 32 && all is_lower_hex (codes claims.jti))
    && claims.sub == worker_id
    && gtb claims.exp now
    && (claims.aud == "*" || claims.aud == relay_audience)

abbrev pub filter :
    (RelayBindTicketClaims → Bool) → Option RelayBindTicketClaims → Option RelayBindTicketClaims
filter p none = none
filter p (some claims) = if p claims then some claims else none

unfoldable pub verify_relay_bind_ticket :
    (String → String → Option RelayBindTicketClaims)
    → String
    → String
    → String
    → String
    → ℤ
    → Option RelayBindTicketClaims
verify_relay_bind_ticket open_ticket token public_key_hex worker_id relay_audience now =
    filter (λ claims. claims_hold claims worker_id relay_audience now)
      (open_ticket token public_key_hex)
