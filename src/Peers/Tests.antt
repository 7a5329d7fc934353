-- ===== src/Peers/Tests.antt =====
-- Runs of the mesh of peers.
use iicp_client_rust.Base.{
  ℕ, ◌-◌, ◌≤◌, ◌<◌, String, ◌==◌, ◌≡◌, refl, ◌⊎◌, true, false, ◌||◌, if◌then◌else◌, [], ◌∷◌, none,
  some, ok, err, length,
}
use iicp_client_rust.Base.Dict.{get, insert}
use iicp_client_rust.Base.Texts.{is_blank, codes}
use iicp_client_rust.Peers.Membership.{
  MembershipEnvelope, MembershipPolicy, GossipEnvelope, Evidence, membership_schema,
  restricted_profile, verify_membership, verify_gossip, validate_membership_shape,
  validate_membership_identity, validate_membership_lifecycle, verify_membership_signature,
  validate_gossip_identity, validate_gossip_freshness_and_payload, verify_gossip_signature,
}
use iicp_client_rust.Peers.Manager.{
  Url, Entry, PeerInfo, PeerManager, Platform, restricted, with_opts, peer_expiry,
  verified_restricted_membership, valid_restricted_peer,
}
use iicp_client_rust.Peers.Table.{
  merge_from, update_minimum_generation, relay_target, record_replay,
}
use iicp_client_rust.Peers.Table.Reach.{Reach, here, next, merges}
use iicp_client_rust.Peers.Table.Admitted.{IsAdmitted, IsRestricted}
use iicp_client_rust.Peers.Table.Current.{
  update_minimum_generation-IsRestricted, relay_target-IsAdmitted,
}
use iicp_client_rust.Peers.Exchange.{Wire, parse_restricted_exchange, verify_restricted_exchange}
use iicp_client_rust.Peers.Exchange.Replays.{verify_restricted_exchange_once}

abbrev evidence : Evidence
evidence = record {
  is_uuid = λ s. true;
  is_key = λ s. s == "authority-key" || s == "node-key";
  is_signature = λ s. true;
  assertion_bytes = λ a. some (codes a.assertion_id);
  proof_bytes = λ p. some (codes p.replay_id);
  verify = λ key message value. value == key;
  sha256_hex = λ bytes. "digest";
}

abbrev http_url : Url
http_url = record {
  scheme = "https";
  host_str = some "peer.example";
  username = "";
  password = none;
  fragment = none;
}

abbrev platform : Platform ℕ
platform = record {
  evidence = evidence;
  parse_url = λ s. if s == "" then none else some http_url;
  is_finite = λ load. true;
  is_negative = λ load. false;
  zero_load = 0;
}

abbrev policy : MembershipPolicy
policy = record {
  domain_id = "domain";
  authority_id = "authority";
  authority_key_id = "k1";
  authority_public_key_ed25519 = "authority-key";
  minimum_generation = 1;
  maximum_clock_skew_seconds = 60;
}

abbrev membership_of : String → ℕ → MembershipEnvelope
membership_of node generation = record {
  assertion = record {
    schema = membership_schema;
    profile = restricted_profile;
    assertion_id = "assertion";
    domain_id = "domain";
    subject = record { kind = "node"; id = node; key_id = "n1"; public_key_ed25519 = "node-key" };
    issuer = record { id = "authority"; key_id = "k1" };
    issued_at = 1000;
    expires_at = 2000;
    generation = generation;
    scopes = "peers" ∷ [];
    audience = "domain" ∷ [];
  };
  signature = record { algorithm = "Ed25519"; key_id = none; value = "authority-key" };
}

abbrev entry_of : String → ℕ → ℕ → Entry ℕ
entry_of node generation load = record {
  node_id = some node;
  endpoint = some "https://peer.example:9000/v1";
  region = none;
  last_seen = none;
  relay_capable = some true;
  relay_accept_port = some 9485;
  relay_load = some load;
  membership = some (membership_of node generation);
}

unfoldable merged : PeerManager ℕ
unfolding merge_from with_opts
merged =
    (merge_from platform (λ i. 0) 0 (with_opts "" (restricted policy)) 0 "self"
      (entry_of "old" 2 7 ∷ entry_of "new" 5 3 ∷ entry_of "self" 5 3 ∷ []) "peers" 1500 0).0

merged_reached : Reach platform 0 (with_opts "" (restricted policy)) merged
unfolding merged
merged_reached = next here (
    merges _ (λ i. 0) "self" (entry_of "old" 2 7 ∷ entry_of "new" 5 3 ∷ entry_of "self" 5 3 ∷ [])
      "peers" 1500 0)

two_are_admitted : length merged.peers ≡ 2
unfolding merged verify_membership validate_membership_shape validate_membership_identity
    validate_membership_lifecycle verify_membership_signature verified_restricted_membership
    valid_restricted_peer is_blank get insert
two_are_admitted = refl

only_the_new_one_stays : length (update_minimum_generation (λ s. s) (λ s. s) merged 3).0.peers ≡ 1
unfolding merged update_minimum_generation verify_membership validate_membership_shape
    validate_membership_identity validate_membership_lifecycle verify_membership_signature
    verified_restricted_membership valid_restricted_peer is_blank get insert
only_the_new_one_stays = refl

update_minimum_generation-IsRestricted_example :
    IsRestricted evidence policy 3 (update_minimum_generation (λ s. s) (λ s. s) merged 3).0
update_minimum_generation-IsRestricted_example =
    update_minimum_generation-IsRestricted platform policy "" 3 0 (λ s. s) (λ s. s) (λ s. here)
      (λ s. here) merged_reached here

unfoldable new_peer : PeerInfo ℕ
new_peer = record {
  node_id = "new";
  endpoint = "https://peer.example:9000/v1";
  region = "";
  last_seen = "";
  last_contact = 0;
  relay_capable = true;
  relay_accept_port = 9485;
  relay_load = 3;
  trust_domain_id = some "domain";
  membership_generation = some 5;
  membership_expires_at = some 2000;
  membership = some (membership_of "new" 5);
}

relay_target_new : (relay_target (λ s. s) merged 7 1500 "new").1 ≡ some new_peer
unfolding merged relay_target new_peer verify_membership validate_membership_shape
    validate_membership_identity validate_membership_lifecycle verify_membership_signature
    verified_restricted_membership valid_restricted_peer is_blank get insert
relay_target_new = refl

relay_target-IsAdmitted_example :
    (admitted : IsAdmitted evidence policy 1 ("new", new_peer)) × (1500
      < admitted.envelope.assertion.expires_at)
    × (7 - new_peer.last_contact < peer_expiry)
relay_target-IsAdmitted_example =
    relay_target-IsAdmitted platform policy "" 0 7 1500 "new" merged_reached relay_target_new

abbrev gossip_of : String → GossipEnvelope
gossip_of replay_id = record {
  proof = record {
    sender_id = "new";
    domain_id = "domain";
    sent_at = 1500;
    replay_id = replay_id;
    payload_sha256 = "digest";
    membership_assertion_id = "assertion";
  };
  signature = record { algorithm = "Ed25519"; key_id = some "n1"; value = "node-key" };
}

abbrev wire : Wire ℕ
wire = record {
  platform = platform;
  from_slice = λ body. some (record {
    membership = some (membership_of "new" 5);
    gossip = some (gossip_of "replay");
    known_peers = some [];
    canonical = some [];
  });
  verify_hmac = λ body token sig. false;
}

parsed_lem :
    parse_restricted_exchange wire [] ≡ ok (membership_of "new" 5, gossip_of "replay", [], [])
unfolding parse_restricted_exchange
parsed_lem = refl

accepted_lem : (verify_restricted_exchange wire (λ s. s) merged [] policy 1500 1501).1 ≡ ok []
unfolding merged verify_restricted_exchange record_replay parse_restricted_exchange verify_gossip
    validate_gossip_identity validate_gossip_freshness_and_payload verify_gossip_signature
    verify_membership validate_membership_shape validate_membership_identity
    validate_membership_lifecycle verify_membership_signature verified_restricted_membership
    valid_restricted_peer is_blank get insert
accepted_lem = refl

repeated_lem :
    (verify_restricted_exchange wire
      (λ s. s)
      (verify_restricted_exchange wire (λ s. s) merged [] policy 1500 1501).0
      []
      policy
      1502
      1503).1
    ≡ err "gossip_replay"
unfolding merged verify_restricted_exchange record_replay parse_restricted_exchange verify_gossip
    validate_gossip_identity validate_gossip_freshness_and_payload verify_gossip_signature
    verify_membership validate_membership_shape validate_membership_identity
    validate_membership_lifecycle verify_membership_signature verified_restricted_membership
    valid_restricted_peer is_blank get insert
repeated_lem = refl

verify_restricted_exchange_once_example :
    ((e : String) × ((verify_restricted_exchange wire
          (λ s. s)
          (verify_restricted_exchange wire (λ s. s) merged [] policy 1500 1501).0
          []
          policy
          1502
          1503).1
        ≡ err e))
    ⊎ ((1502 < 2000) × (2000 ≤ 1503))
verify_restricted_exchange_once_example =
    verify_restricted_exchange_once wire policy policy (λ s. s) (λ s. s) merged [] [] 1500 1501 1502
      1503 parsed_lem parsed_lem refl refl accepted_lem here here
