-- ===== src/Peers/Exchange.antt =====
-- The exchange of peers at a `PeerManager` of src/peer_manager.rs: which requests it accepts. The bytes of a
-- request are given by what serde_json reads in them, an `Exchange`.
pub mod Records
pub mod Replays
use iicp_client_rust.Base.{
  ℕ, String, ◌==◌, Bool, true, false, List, [], ◌∷◌, Option, none, some, Result, ok, err, ok_or,
  ◌>>=◌, ◌>>◌, if◌then◌else◌,
}
use iicp_client_rust.Peers.Membership.{
  MembershipEnvelope, MembershipPolicy, MembershipRefusal, GossipEnvelope, code, verify_gossip,
}
use iicp_client_rust.Peers.Manager.{
  PeerManager, PeerAdmissionMode, public, restricted, Entry, Platform, and_then, raised_policy,
}
use iicp_client_rust.Peers.Table.{record_replay}

-- The members of the JSON object that is the body: those that are there and well-formed. `canonical` is the
-- canonical JSON of `{"known_peers": …}`.
pub record Exchange (Load : Type 0) : Type 0 where
  pub membership : Option MembershipEnvelope
  pub gossip : Option GossipEnvelope
  pub known_peers : Option (List (Entry Load))
  pub canonical : Option (List ℕ)

-- What the code calls of serde_json and of src/pricing.rs: the body as JSON, and the check of its HMAC under a
-- token.
pub record Wire (Load : Type 0) : Type 0 where
  pub platform : Platform Load
  pub from_slice : List ℕ → Option (Exchange Load)
  pub verify_hmac : List ℕ → String → String → Bool

abbrev pub RestrictedExchange : Type 0 → Type 0
RestrictedExchange Load = MembershipEnvelope × GossipEnvelope × List (Entry Load) × List ℕ

abbrev pub map_err : {A : Type 0} → Result MembershipRefusal A → Result String A
map_err (ok a) = ok a
map_err (err refusal) = err (code refusal)

module _ {Load : Type 0} (wire : Wire Load) where
  unfoldable pub restricted_peer_payload :
      Exchange Load → Result String (List (Entry Load) × List ℕ)
  restricted_peer_payload parsed = do
    peers ← ok_or parsed.known_peers "malformed_exchange"
    payload ← ok_or parsed.canonical "malformed_exchange"
    ok (peers, payload)

  unfoldable pub parse_restricted_exchange : List ℕ → Result String (RestrictedExchange Load)
  unfolding restricted_peer_payload
  parse_restricted_exchange body = do
    parsed ← ok_or (wire.from_slice body) "malformed_exchange"
    membership ← ok_or parsed.membership "membership_malformed"
    gossip ← ok_or parsed.gossip "gossip_malformed"
    restricted_peer_payload parsed >>= λ (read : List (Entry Load) × List ℕ).
        ok (membership, gossip, read.0, read.1)

  unfoldable pub verify_token : PeerAdmissionMode → String → List ℕ → Option String → Bool
  verify_token (restricted policy) token body signature = false
  verify_token public token body none = token == ""
  verify_token public token body (some sig) =
      if token == "" then true else wire.verify_hmac body token sig

  unfoldable pub verify_exchange : PeerManager Load → List ℕ → Option String → Bool
  unfolding verify_token
  verify_exchange m body signature = verify_token m.admission m.node_token body signature

  unfoldable pub extract_known_peers : List ℕ → Option (List (Entry Load))
  extract_known_peers body = and_then (wire.from_slice body) (λ parsed. parsed.known_peers)

  -- What `verify_restricted_exchange` checks before it records the replay identifier.
  unfoldable pub checked_exchange :
      ℕ → List ℕ → MembershipPolicy → ℕ → Result String (RestrictedExchange Load)
  unfolding raised_policy code
  checked_exchange minimum body policy verified_at =
      parse_restricted_exchange body >>= λ (x : RestrictedExchange Load).
      map_err (
        verify_gossip wire.platform.evidence x.1 x.0 (raised_policy policy minimum) x.3 verified_at
          false)
      >> ok x

  abbrev pub answer :
      List (Entry Load)
      → PeerManager Load × Result String (Unit {0})
      → PeerManager Load × Result String (List (Entry Load))
  answer peers (m, ok tt) = (m, ok peers)
  answer peers (m, err e) = (m, err e)

  unfoldable pub accept :
      PeerManager Load
      → ℕ
      → Result String (RestrictedExchange Load)
      → PeerManager Load × Result String (List (Entry Load))
  accept m recorded_at (err e) = (m, err e)
  accept m recorded_at (ok (membership, gossip, peers, payload)) =
      answer peers
        (record_replay m recorded_at gossip.proof.replay_id membership.assertion.expires_at)

  -- The two readings of the clock, and what other tasks do between the check and the record.
  unfoldable pub verify_restricted_exchange :
      (PeerManager Load → PeerManager Load)
      → PeerManager Load
      → List ℕ
      → MembershipPolicy
      → ℕ
      → ℕ
      → PeerManager Load × Result String (List (Entry Load))
  unfolding checked_exchange accept
  verify_restricted_exchange others m body policy verified_at recorded_at =
      accept (others m) recorded_at (checked_exchange m.minimum_generation body policy verified_at)

  unfoldable pub extract_under :
      (PeerManager Load → PeerManager Load)
      → PeerManager Load
      → PeerAdmissionMode
      → List ℕ
      → Option String
      → ℕ
      → ℕ
      → PeerManager Load × Result String (List (Entry Load))
  unfolding verify_exchange extract_known_peers
  extract_under others m public body signature verified_at recorded_at =
      if verify_exchange m body signature
      then (m, ok_or (extract_known_peers body) "malformed_exchange")
      else (m, err "invalid_signature")
  extract_under others m (restricted policy) body signature verified_at recorded_at =
      verify_restricted_exchange others m body policy verified_at recorded_at

  unfoldable pub verify_and_extract_exchange :
      (PeerManager Load → PeerManager Load)
      → PeerManager Load
      → List ℕ
      → Option String
      → ℕ
      → ℕ
      → PeerManager Load × Result String (List (Entry Load))
  unfolding extract_under
  verify_and_extract_exchange others m body signature verified_at recorded_at =
      extract_under others m m.admission body signature verified_at recorded_at
