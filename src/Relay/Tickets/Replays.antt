-- ===== src/Relay/Tickets/Replays.antt =====
-- Tickets that are used again: src/relay_ticket.rs.
use iicp_client_rust.Base.{
  String, ◌==◌, ◌≡◌, true, false, inl, inr, List, [], ◌∷◌, some, All, arith, Bool-cases,
  String-cases,
}
use iicp_client_rust.Base.Words.{ℤ, gtb}
use iicp_client_rust.Base.Dict.{get, contains_key, get-insert, get-insert_self}
use iicp_client_rust.Relay.Tickets.{RelayBindTicketClaims, unexpired, consume_relay_bind_ticket}

-- The tickets seen after more were presented, each at its time.
unfoldable pub presented : List (String × ℤ) → List (RelayBindTicketClaims × ℤ) → List (String × ℤ)
presented seen [] = seen
presented seen ((claims, now) ∷ uses) = presented (consume_relay_bind_ticket seen claims now).0 uses

pub get-unexpired :
    (jti : String) (exp now : ℤ) (seen : List (String × ℤ))
    → gtb exp now ≡ true
    → get jti seen ≡ some exp
    → get jti (unexpired now seen) ≡ some exp
unfolding get unexpired
get-unexpired jti exp now [] live h = absurd (ground arith)
get-unexpired jti exp now ((other, e) ∷ seen) live h = elim (Bool-cases (other == jti)) [
  | inl own ↦ let same : e ≡ exp = ground arith in rw (same, live, own)
  | inr differs ↦ let rest = get-unexpired jti exp now seen live (rw differs at h) in ground arith
]

consume_keeps :
    (seen : List (String × ℤ)) (claims : RelayBindTicketClaims) (now exp : ℤ) (jti : String)
    → gtb exp now ≡ true
    → get jti seen ≡ some exp
    → get jti (consume_relay_bind_ticket seen claims now).0 ≡ some exp
unfolding consume_relay_bind_ticket
consume_keeps seen claims now exp jti live h =
    let kept = get-unexpired jti exp now seen live h in
    elim (Bool-cases (contains_key claims.jti (unexpired now seen))) [
      | inl known ↦ rw known kept
      | inr fresh ↦ elim (String-cases claims.jti jti) [
        | inl same ↦ let met = rw (same, kept) at fresh in absurd (ground arith)
        | inr differs ↦
            rw (fresh, get-insert claims.jti jti claims.exp (unexpired now seen), differs) kept
      ]
    ]

presented_keeps :
    (seen : List (String × ℤ)) (uses : List (RelayBindTicketClaims × ℤ)) (exp : ℤ) (jti : String)
    → All (λ u. gtb exp u.1 ≡ true) uses
    → get jti seen ≡ some exp
    → get jti (presented seen uses) ≡ some exp
unfolding presented
presented_keeps seen [] exp jti before h = h
presented_keeps seen ((claims, now) ∷ uses) exp jti (live, before) h =
    presented_keeps (consume_relay_bind_ticket seen claims now).0 uses exp jti before
      (consume_keeps seen claims now exp jti live h)

pub consume-get :
    (seen : List (String × ℤ)) (claims : RelayBindTicketClaims) (now : ℤ)
    → (consume_relay_bind_ticket seen claims now).1 ≡ true
    → get claims.jti (consume_relay_bind_ticket seen claims now).0 ≡ some claims.exp
unfolding consume_relay_bind_ticket
consume-get seen claims now h =
    ground (arith, get-insert_self claims.jti claims.exp (unexpired now seen))

-- A ticket that was used is refused when its identifier is presented again before it expires, whatever
-- tickets are presented in between, before that time too.
pub consume_relay_bind_ticket_once :
    (seen : List (String × ℤ)) (claims : RelayBindTicketClaims) (now : ℤ)
    (uses : List (RelayBindTicketClaims × ℤ)) (again : RelayBindTicketClaims) (later : ℤ)
    → (consume_relay_bind_ticket seen claims now).1 ≡ true
    → again.jti ≡ claims.jti
    → All (λ u. gtb claims.exp u.1 ≡ true) uses
    → gtb claims.exp later ≡ true
    → (consume_relay_bind_ticket
        (presented (consume_relay_bind_ticket seen claims now).0 uses)
        again
        later).1
      ≡ false
consume_relay_bind_ticket_once seen claims now uses again later used same before live =
    let after = (consume_relay_bind_ticket seen claims now).0 in
    let known = get-unexpired claims.jti claims.exp later (presented after uses) live (
      presented_keeps after uses claims.exp claims.jti before (consume-get seen claims now used)) in
    unfold consume_relay_bind_ticket in rw (same, known)
