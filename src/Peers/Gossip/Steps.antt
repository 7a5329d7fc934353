-- ===== src/Peers/Gossip/Steps.antt =====
-- Each method of the `PeerManager` in src/peer_manager.rs does what tasks can do, one step after another.
use iicp_client_rust.Base.{
  ℕ, ◌≤◌, String, ◌≡◌, refl, Bool, true, false, List, Option, none, some, Result, ok, err,
  if◌then◌else◌,
}
use iicp_client_rust.Peers.Membership.{MembershipPolicy}
use iicp_client_rust.Peers.Manager.{PeerManager, Entry, Platform}
use iicp_client_rust.Peers.Table.{
  update_minimum_generation, relay_target, merge_peers, merge_peers_for_scope, merge_peers_at,
  touch, record_replay,
}
use iicp_client_rust.Peers.Table.Reach.{
  announces, sweeps, prunes, touches, merges, records, Reach, here, next, Reach-trans,
}
use iicp_client_rust.Peers.Exchange.{
  Wire, RestrictedExchange, answer, accept, verify_restricted_exchange,
}
use iicp_client_rust.Peers.Gossip.{
  Response, merge_exchanged, handle_exchange_response, merge_bootstrapped, merge_bootstrap_response,
}

module _ {Load : Type 0} (platform : Platform Load) (latest : ℕ) where
  abbrev pub Others : (PeerManager Load → PeerManager Load) → Type 0
  Others others = (s : PeerManager Load) → Reach platform latest s (others s)

  pub update_minimum_generation-Reach :
      (before_load before_lock : PeerManager Load → PeerManager Load) (m : PeerManager Load)
      (generation : ℕ)
      → Others before_load
      → Others before_lock
      → Reach platform latest m (update_minimum_generation before_load before_lock m generation).0
  unfolding update_minimum_generation
  update_minimum_generation-Reach before_load before_lock m generation r q =
      next
        (Reach-trans platform (next here (announces m generation))
          (Reach-trans platform (r _) (q _)))
        (sweeps _ _)

  pub relay_target-Reach :
      (others : PeerManager Load → PeerManager Load) (m : PeerManager Load) (now epoch : ℕ)
      (node_id : String)
      → Others others
      → Reach platform latest m (relay_target others m now epoch node_id).0
  unfolding relay_target
  relay_target-Reach others m now epoch node_id r =
      Reach-trans platform (next here (prunes m now epoch)) (r _)

  pub merge_peers_for_scope-Reach :
      (announced : ℕ → ℕ) (m : PeerManager Load) (incoming : List (Entry Load)) (scope : String)
      (epoch now : ℕ)
      → Reach platform latest m
          (merge_peers_for_scope platform announced m incoming scope epoch now).0
  unfolding merge_peers_for_scope merge_peers_at
  merge_peers_for_scope-Reach announced m incoming scope epoch now =
      next here (merges m announced m.own_id incoming scope epoch now)

  merge_exchanged-Reach :
      (announced : ℕ → ℕ) (m : PeerManager Load) (peers : Option (List (Entry Load)))
      (epoch now : ℕ)
      → Reach platform latest m (merge_exchanged platform announced m peers epoch now)
  unfolding merge_exchanged merge_peers
  merge_exchanged-Reach announced m none epoch now = here
  merge_exchanged-Reach announced m (some peers) epoch now =
      merge_peers_for_scope-Reach announced m peers "peers" epoch now

  pub handle_exchange_response-Reach :
      (announced : ℕ → ℕ) (others : PeerManager Load → PeerManager Load) (m : PeerManager Load)
      (response : Response Load) (target_id : String) (epoch now contacted_at : ℕ)
      → Others others
      → Reach platform latest m (
          handle_exchange_response platform announced others m response target_id epoch now
            contacted_at)
  unfolding handle_exchange_response
  handle_exchange_response-Reach announced others m response target_id epoch now contacted_at r =
      elim response.is_success
        as (λ success. Reach platform latest m (
          if success
          then touch (others (merge_exchanged platform announced m response.peers epoch now))
              target_id contacted_at
          else m)) [
            | true ↦
                next
                  (Reach-trans platform (merge_exchanged-Reach announced m response.peers epoch now)
                    (r _))
                  (touches _ target_id contacted_at)
            | false ↦ here
          ]

  merge_bootstrapped-Reach :
      (announced : ℕ → ℕ) (m : PeerManager Load) (peers : Option (List (Entry Load)))
      (epoch now : ℕ)
      → Reach platform latest m (merge_bootstrapped platform announced m peers epoch now)
  unfolding merge_bootstrapped
  merge_bootstrapped-Reach announced m none epoch now = here
  merge_bootstrapped-Reach announced m (some peers) epoch now =
      merge_peers_for_scope-Reach announced m peers "bootstrap" epoch now

  pub merge_bootstrap_response-Reach :
      (announced : ℕ → ℕ) (m : PeerManager Load) (response : Response Load) (decided : Bool)
      (epoch now : ℕ)
      → Reach platform latest m
          (merge_bootstrap_response platform announced m response decided epoch now)
  unfolding merge_bootstrap_response
  merge_bootstrap_response-Reach announced m response decided epoch now =
      elim response.is_success
        as (λ success. Reach platform latest m (
          if success
          then (if decided
              then merge_bootstrapped platform announced m response.peers epoch now
              else m)
          else m)) [
            | true ↦
                elim decided
                  as (λ fine. Reach platform latest m (
                    if fine
                    then merge_bootstrapped platform announced m response.peers epoch now
                    else m)) [
                      | true ↦ merge_bootstrapped-Reach announced m response.peers epoch now
                      | false ↦ here
                    ]
            | false ↦ here
          ]

module _ {Load : Type 0} (wire : Wire Load) (latest : ℕ) where
  answer_state :
      (peers : List (Entry Load)) (r : PeerManager Load × Result String (Unit {0}))
      → (answer wire peers r).0 ≡ r.0
  answer_state peers (m, ok tt) = refl
  answer_state peers (m, err e) = refl

  accept-Reach :
      (m : PeerManager Load) (recorded_at : ℕ) (checked : Result String (RestrictedExchange Load))
      → recorded_at ≤ latest
      → Reach wire.platform latest m (accept wire m recorded_at checked).0
  unfolding accept
  accept-Reach m recorded_at (err e) within = here
  accept-Reach m recorded_at (ok (membership, gossip, peers, payload)) within =
      rw
        (answer_state peers
          (record_replay m recorded_at gossip.proof.replay_id membership.assertion.expires_at))
        (next here
          (records m recorded_at gossip.proof.replay_id membership.assertion.expires_at within))

  pub verify_restricted_exchange-Reach :
      (others : PeerManager Load → PeerManager Load) (m : PeerManager Load) (body : List ℕ)
      (policy : MembershipPolicy) (verified_at recorded_at : ℕ)
      → ((s : PeerManager Load) → Reach wire.platform latest s (others s))
      → recorded_at ≤ latest
      → Reach wire.platform latest m
          (verify_restricted_exchange wire others m body policy verified_at recorded_at).0
  unfolding verify_restricted_exchange
  verify_restricted_exchange-Reach others m body policy verified_at recorded_at r within =
      Reach-trans wire.platform (r m) (accept-Reach (others m) recorded_at _ within)
