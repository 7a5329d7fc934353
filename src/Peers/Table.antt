-- ===== src/Peers/Table.antt =====
-- The methods of `PeerManager` in src/peer_manager.rs that change or read its table of peers and its replay
-- identifiers. A lock makes each use of a table one step; what other tasks do between two steps of a method is
-- an argument.
pub mod Reach
pub mod Admitted
pub mod Current
use iicp_client_rust.Base.{
  ℕ, ◌+◌, ◌-◌, max, String, Bool, true, false, ◌&&◌, List, [], ◌∷◌, Option, none, some, Result, ok,
  err, length, retain, ltb, leb, if◌then◌else◌,
}
use iicp_client_rust.Base.Dict.{get, insert, contains_key, values}
use iicp_client_rust.Peers.Membership.{code, replay_detected, replay_capacity}
use iicp_client_rust.Peers.Manager.{
  PeerInfo, PeerManager, Entry, Platform, peer_expiry, is_none_or, map_some, merge_one,
}

-- `MAX_REPLAY_IDS`.
abbrev pub max_replay_ids : ℕ
max_replay_ids = 4096

module _ {Load : Type 0} where
  -- `minimum_generation.fetch_max(generation)`.
  unfoldable pub fetch_max : PeerManager Load → ℕ → PeerManager Load
  fetch_max m generation = record m { minimum_generation = max m.minimum_generation generation }

  abbrev pub is_at_least : ℕ → PeerInfo Load → Bool
  is_at_least minimum peer =
      is_none_or peer.membership_generation (λ generation. leb minimum generation)

  -- The peers that stay under a minimum that was read, and how many are dropped.
  unfoldable pub sweep : PeerManager Load → ℕ → PeerManager Load × ℕ
  sweep m minimum =
      let kept = retain (λ e. is_at_least minimum e.1) m.peers in
      (record m { peers = kept }, length m.peers - length kept)

  unfoldable pub update_minimum_generation :
      (PeerManager Load → PeerManager Load)
      → (PeerManager Load → PeerManager Load)
      → PeerManager Load
      → ℕ
      → PeerManager Load × ℕ
  unfolding fetch_max sweep
  update_minimum_generation before_load before_lock m generation =
      let loaded = before_load (fetch_max m generation) in
      sweep (before_lock loaded) loaded.minimum_generation

  abbrev pub is_unpruned : ℕ → ℕ → PeerInfo Load → Bool
  is_unpruned now epoch peer =
      ltb (now - peer.last_contact) peer_expiry
      && is_none_or peer.membership_expires_at (λ expires. ltb epoch expires)

  unfoldable pub prune : PeerManager Load → ℕ → ℕ → PeerManager Load × ℕ
  prune m now epoch =
      let kept = retain (λ e. is_unpruned now epoch e.1) m.peers in
      (record m { peers = kept }, length m.peers - length kept)

  unfoldable pub get_peers :
      (PeerManager Load → PeerManager Load)
      → PeerManager Load
      → ℕ
      → ℕ
      → PeerManager Load × List (PeerInfo Load)
  unfolding prune
  get_peers others m now epoch = let m' = others (prune m now epoch).0 in (m', values m'.peers)

  unfoldable pub relay_target :
      (PeerManager Load → PeerManager Load)
      → PeerManager Load
      → ℕ
      → ℕ
      → String
      → PeerManager Load × Option (PeerInfo Load)
  unfolding prune
  relay_target others m now epoch node_id =
      let m' = others (prune m now epoch).0 in (m', get node_id m'.peers)

  -- `start` until it asks for peers.
  unfoldable pub start : PeerManager Load → String → PeerManager Load
  start m node_id = record m { own_id = node_id }

  abbrev pub touched :
      List (String × PeerInfo Load)
      → String
      → ℕ
      → Option (PeerInfo Load)
      → List (String × PeerInfo Load)
  touched peers node_id now none = peers
  touched peers node_id now (some peer) = insert node_id (record peer { last_contact = now }) peers

  -- The last step of `handle_exchange_response`.
  unfoldable pub touch : PeerManager Load → String → ℕ → PeerManager Load
  touch m target_id now = record m { peers = touched m.peers target_id now (get target_id m.peers) }

  abbrev pub recorded :
      PeerManager Load
      → List (String × ℕ)
      → String
      → ℕ
      → PeerManager Load × Result String (Unit {0})
  recorded m ids replay_id expires_at =
      if contains_key replay_id ids
      then (record m { replay_ids = ids }, err (code replay_detected))
      else if leb max_replay_ids (length ids)
      then (record m { replay_ids = ids }, err (code replay_capacity))
      else (record m { replay_ids = insert replay_id expires_at ids }, ok tt)

  unfoldable pub record_replay :
      PeerManager Load → ℕ → String → ℕ → PeerManager Load × Result String (Unit {0})
  unfolding code
  record_replay m now replay_id expires_at =
      recorded m (retain (λ e. ltb now e.1) m.replay_ids) replay_id expires_at

module _ {Load : Type 0} (platform : Platform Load) where
  -- The loop of `merge_peers_at`, from the entry at a position. Other tasks cannot touch the peers meanwhile, but
  -- may announce generations: `announced i` before the entry at `i` is checked.
  unfoldable pub merge_from :
      (ℕ → ℕ)
      → ℕ
      → PeerManager Load
      → ℕ
      → String
      → List (Entry Load)
      → String
      → ℕ
      → ℕ
      → PeerManager Load × ℕ
  unfolding fetch_max merge_one
  merge_from announced i m added own [] scope epoch now = (m, added)
  merge_from announced i m added own (p ∷ incoming) scope epoch now =
      let (m', added') =
        merge_one platform (fetch_max m (announced i)) added own p scope epoch now in
      merge_from announced (i + 1) m' added' own incoming scope epoch now

  unfoldable pub merge_peers_at :
      (ℕ → ℕ) → PeerManager Load → List (Entry Load) → String → ℕ → ℕ → PeerManager Load × ℕ
  unfolding merge_from
  merge_peers_at announced m incoming scope epoch now =
      merge_from announced 0 m 0 m.own_id incoming scope epoch now

  unfoldable pub merge_peers_for_scope :
      (ℕ → ℕ) → PeerManager Load → List (Entry Load) → String → ℕ → ℕ → PeerManager Load × ℕ
  unfolding merge_peers_at
  merge_peers_for_scope announced m incoming scope unix_time now =
      merge_peers_at announced m incoming scope unix_time now

  unfoldable pub merge_peers :
      (ℕ → ℕ) → PeerManager Load → List (Entry Load) → ℕ → ℕ → PeerManager Load × ℕ
  unfolding merge_peers_for_scope
  merge_peers announced m incoming unix_time now =
      merge_peers_for_scope announced m incoming "peers" unix_time now
