-- ===== src/Peers/Gossip.antt =====
-- What a `PeerManager` of src/peer_manager.rs does with the answers of other nodes. An answer is given by its
-- status and the array of peers in its JSON, if there is one.
pub mod Steps
use iicp_client_rust.Base.{
  ℕ, String, Bool, true, false, List, [], ◌∷◌, Option, none, some, ltb, if◌then◌else◌,
}
use iicp_client_rust.Peers.Manager.{PeerInfo, PeerManager, Entry, Platform}
use iicp_client_rust.Peers.Table.{merge_peers, merge_peers_for_scope, touch}

pub record Response (Load : Type 0) : Type 0 where
  pub is_success : Bool
  pub peers : Option (List (Entry Load))

-- The gossip target is the peer that was contacted longest ago: `min_by_key` keeps the first of several.
unfoldable pub oldest_from : {Load : Type 0} → PeerInfo Load → List (PeerInfo Load) → PeerInfo Load
oldest_from best [] = best
oldest_from best (p ∷ peers) =
    oldest_from (if ltb p.last_contact best.last_contact then p else best) peers

unfoldable pub gossip_target : {Load : Type 0} → List (PeerInfo Load) → Option (PeerInfo Load)
unfolding oldest_from
gossip_target [] = none
gossip_target (p ∷ peers) = some (oldest_from p peers)

module _ {Load : Type 0} (platform : Platform Load) (announced : ℕ → ℕ) where
  unfoldable pub merge_exchanged :
      PeerManager Load → Option (List (Entry Load)) → ℕ → ℕ → PeerManager Load
  unfolding merge_peers
  merge_exchanged m none unix_time now = m
  merge_exchanged m (some peers) unix_time now =
      (merge_peers platform announced m peers unix_time now).0

  -- The answer is merged; then the contact of the target is noted.
  unfoldable pub handle_exchange_response :
      (PeerManager Load → PeerManager Load)
      → PeerManager Load
      → Response Load
      → String
      → ℕ
      → ℕ
      → ℕ
      → PeerManager Load
  unfolding merge_exchanged
  handle_exchange_response others m response target_id unix_time now contacted_at =
      if response.is_success
      then touch (others (merge_exchanged m response.peers unix_time now)) target_id contacted_at
      else m

  unfoldable pub merge_bootstrapped :
      PeerManager Load → Option (List (Entry Load)) → ℕ → ℕ → PeerManager Load
  unfolding merge_peers_for_scope
  merge_bootstrapped m none unix_time now = m
  merge_bootstrapped m (some peers) unix_time now =
      (merge_peers_for_scope platform announced m peers "bootstrap" unix_time now).0

  -- `decided` is the check of the directory's decision, where the manager has a context for one.
  unfoldable pub merge_bootstrap_response :
      PeerManager Load → Response Load → Bool → ℕ → ℕ → PeerManager Load
  unfolding merge_bootstrapped
  merge_bootstrap_response m response decided unix_time now =
      if response.is_success
      then (if decided then merge_bootstrapped m response.peers unix_time now else m)
      else m
