-- ===== src/Peers/Manager.antt =====
-- `PeerManager` of src/peer_manager.rs: its state, and the admission of a peer to its table. An `Instant` is a
-- number of nanoseconds, `relay_load` is of the type `Load`, and an `Entry` is what the code reads of a peer's
-- JSON object. Left out are the fields that only the requests to other nodes read.
use iicp_client_rust.Base.{
  ℕ, ◌+◌, ◌%◌, max, String, ◌==◌, Bool, true, false, not, ◌&&◌, ◌||◌, List, [], ◌∷◌, Option, none,
  some, ok, err, ltb, eqb, one_of, if◌then◌else◌,
}
use iicp_client_rust.Base.Dict.{insert, contains_key, is_some}
use iicp_client_rust.Peers.Membership.{
  MembershipEnvelope, MembershipPolicy, Evidence, Verdict, verify_membership,
}

-- `PEER_EXPIRY`, 90 seconds.
abbrev pub peer_expiry : ℕ
peer_expiry = 90000000000

-- What `reqwest::Url` tells of a URL.
pub record Url : Type 0 where
  pub scheme : String
  pub host_str : Option String
  pub username : String
  pub password : Option String
  pub fragment : Option String

pub record Entry (Load : Type 0) : Type 0 where
  pub node_id : Option String
  pub endpoint : Option String
  pub region : Option String
  pub last_seen : Option String
  pub relay_capable : Option Bool
  pub relay_accept_port : Option ℕ
  pub relay_load : Option Load
  pub membership : Option MembershipEnvelope

pub record PeerInfo (Load : Type 0) : Type 0 where
  pub node_id : String
  pub endpoint : String
  pub region : String
  pub last_seen : String
  pub last_contact : ℕ
  pub relay_capable : Bool
  pub relay_accept_port : ℕ
  pub relay_load : Load
  pub trust_domain_id : Option String
  pub membership_generation : Option ℕ
  pub membership_expires_at : Option ℕ
  pub membership : Option MembershipEnvelope

pub data PeerAdmissionMode : Type 0 where
  public : PeerAdmissionMode
  restricted : MembershipPolicy → PeerAdmissionMode

pub record PeerManager (Load : Type 0) : Type 0 where
  pub node_token : String
  pub own_id : String
  pub admission : PeerAdmissionMode
  pub minimum_generation : ℕ
  pub peers : List (String × PeerInfo Load)
  pub replay_ids : List (String × ℕ)

-- What the code calls of the libraries: those of `Evidence`, `Url::parse`, and an `f64` that is finite, is
-- below 0, is the number 0.
pub record Platform (Load : Type 0) : Type 0 where
  pub evidence : Evidence
  pub parse_url : String → Option Url
  pub is_finite : Load → Bool
  pub is_negative : Load → Bool
  pub zero_load : Load

abbrev pub unwrap_or {ℓ} : {A : Type ℓ} → Option A → A → A
unwrap_or none a = a
unwrap_or (some x) a = x

abbrev pub and_then : {A B : Type 0} → Option A → (A → Option B) → Option B
and_then none f = none
and_then (some a) f = f a

abbrev pub map_some : {A B : Type 0} → (A → B) → Option A → Option B
map_some f none = none
map_some f (some a) = some (f a)

abbrev pub is_none_or : {A : Type 0} → Option A → (A → Bool) → Bool
is_none_or none p = true
is_none_or (some a) p = p a

abbrev pub is_some_and : {A : Type 0} → Option A → (A → Bool) → Bool
is_some_and none p = false
is_some_and (some a) p = p a

unfoldable pub initial_generation : PeerAdmissionMode → ℕ
initial_generation public = 0
initial_generation (restricted policy) = policy.minimum_generation

unfoldable pub with_opts : {Load : Type 0} → String → PeerAdmissionMode → PeerManager Load
unfolding initial_generation
with_opts node_token admission = record {
  node_token = node_token;
  own_id = "";
  admission = admission;
  minimum_generation = initial_generation admission;
  peers = [];
  replay_ids = [];
}

unfoldable pub peer_url_has_no_credentials : Url → Bool
peer_url_has_no_credentials url = url.username == "" && not (is_some url.password)

unfoldable pub valid_peer_url : Url → Bool
unfolding peer_url_has_no_credentials
valid_peer_url url =
    one_of ("http" ∷ "https" ∷ []) url.scheme
    && is_some url.host_str
    && peer_url_has_no_credentials url
    && not (is_some url.fragment)

unfoldable pub invalid_relay_port : {Load : Type 0} → Entry Load → Bool
invalid_relay_port peer = is_some_and peer.relay_accept_port (λ port. eqb port 0 || ltb 65535 port)

-- The policy with the generation that the manager has announced.
unfoldable pub raised_policy : MembershipPolicy → ℕ → MembershipPolicy
raised_policy policy minimum = record policy {
  minimum_generation = max policy.minimum_generation minimum;
}

-- `verdict.ok()?; Some(envelope)`.
unfoldable pub kept : MembershipEnvelope → Verdict → Option MembershipEnvelope
kept envelope (ok done) = some envelope
kept envelope (err refusal) = none

module _ {Load : Type 0} (platform : Platform Load) where
  unfoldable pub invalid_relay_load : Entry Load → Bool
  invalid_relay_load peer =
      is_some_and peer.relay_load
        (λ load. not (platform.is_finite load) || platform.is_negative load)

  unfoldable pub valid_restricted_peer : Entry Load → Bool
  unfolding valid_peer_url invalid_relay_port invalid_relay_load
  valid_restricted_peer peer =
      is_some_and (and_then peer.endpoint platform.parse_url) valid_peer_url
      && not (invalid_relay_port peer)
      && not (invalid_relay_load peer)

  unfoldable pub verified_restricted_membership :
      PeerManager Load
      → Entry Load
      → String
      → String
      → ℕ
      → MembershipPolicy
      → Option MembershipEnvelope
  unfolding raised_policy kept
  verified_restricted_membership m peer node_id scope epoch policy =
      if valid_restricted_peer peer
      then and_then peer.membership (λ envelope. kept envelope (
          verify_membership platform.evidence envelope (raised_policy policy m.minimum_generation)
            node_id scope epoch))
      else none

  unfoldable pub admitted_under :
      PeerManager Load
      → PeerAdmissionMode
      → Entry Load
      → String
      → String
      → ℕ
      → Option (Option MembershipEnvelope)
  admitted_under m public peer node_id scope epoch = some none
  admitted_under m (restricted policy) peer node_id scope epoch =
      map_some some (verified_restricted_membership m peer node_id scope epoch policy)

  unfoldable pub admitted_membership :
      PeerManager Load → Entry Load → String → String → ℕ → Option (Option MembershipEnvelope)
  unfolding admitted_under
  admitted_membership m peer node_id scope epoch =
      admitted_under m m.admission peer node_id scope epoch

  -- `as u16` keeps the lower 16 bits.
  unfoldable pub peer_info : Entry Load → String → Option MembershipEnvelope → ℕ → PeerInfo Load
  peer_info peer node_id membership last_contact = record {
    node_id = node_id;
    endpoint = unwrap_or peer.endpoint "";
    region = unwrap_or peer.region "";
    last_seen = unwrap_or peer.last_seen "";
    last_contact = last_contact;
    relay_capable = unwrap_or peer.relay_capable false;
    relay_accept_port = unwrap_or peer.relay_accept_port 9485 % 65536;
    relay_load = unwrap_or peer.relay_load platform.zero_load;
    trust_domain_id =
        map_some (λ (value : MembershipEnvelope). value.assertion.domain_id) membership;
    membership_generation =
        map_some (λ (value : MembershipEnvelope). value.assertion.generation) membership;
    membership_expires_at =
        map_some (λ (value : MembershipEnvelope). value.assertion.expires_at) membership;
    membership = membership;
  }

  abbrev pub count_new : Bool → ℕ → ℕ
  count_new true added = added
  count_new false added = added + 1

  unfoldable pub inserted :
      PeerManager Load
      → ℕ
      → Entry Load
      → String
      → ℕ
      → Option (Option MembershipEnvelope)
      → PeerManager Load × ℕ
  unfolding peer_info
  inserted m added p nid now none = (m, added)
  inserted m added p nid now (some membership) = (
    record m { peers = insert nid (peer_info p nid membership now) m.peers },
    count_new (contains_key nid m.peers) added,
  )

  -- One turn of the loop of `merge_peers_at`; `own` is read before the loop.
  unfoldable pub merge_one :
      PeerManager Load → ℕ → String → Entry Load → String → ℕ → ℕ → PeerManager Load × ℕ
  unfolding inserted admitted_membership
  merge_one m added own p scope epoch now =
      let nid = unwrap_or p.node_id "" in
      if nid == "" || nid == own
      then (m, added)
      else inserted m added p nid now (admitted_membership m p nid scope epoch)
