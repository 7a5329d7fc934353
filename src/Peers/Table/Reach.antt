-- ===== src/Peers/Table/Reach.antt =====
-- What any tasks can do to a `PeerManager` of src/peer_manager.rs, one use of its state after another.
use iicp_client_rust.Base.{ℕ, ◌+◌, max, ◌≤◌, String, ◌≡◌, List, [], ◌∷◌, arith}
use iicp_client_rust.Peers.Manager.{PeerManager, Entry, Platform, inserted, merge_one}
use iicp_client_rust.Peers.Table.{fetch_max, sweep, prune, start, touch, record_replay, merge_from}

-- The clock of `record_replay` shows at most `latest`.
pub data Step {Load : Type 0} (platform : Platform Load) (latest : ℕ)
    : PeerManager Load → PeerManager Load → Type 0 where
  announces :
      (m : PeerManager Load) (generation : ℕ) → Step platform latest m (fetch_max m generation)
  sweeps : (m : PeerManager Load) (minimum : ℕ) → Step platform latest m (sweep m minimum).0
  prunes : (m : PeerManager Load) (now epoch : ℕ) → Step platform latest m (prune m now epoch).0
  starts : (m : PeerManager Load) (node_id : String) → Step platform latest m (start m node_id)
  touches :
      (m : PeerManager Load) (node_id : String) (now : ℕ)
      → Step platform latest m (touch m node_id now)
  merges :
      (m : PeerManager Load) (announced : ℕ → ℕ) (own : String) (incoming : List (Entry Load))
      (scope : String) (epoch now : ℕ)
      → Step platform latest m (merge_from platform announced 0 m 0 own incoming scope epoch now).0
  records :
      (m : PeerManager Load) (now : ℕ) (replay_id : String) (expires_at : ℕ)
      → now ≤ latest
      → Step platform latest m (record_replay m now replay_id expires_at).0

pub data Reach {Load : Type 0} (platform : Platform Load) (latest : ℕ) (s : PeerManager Load)
    : PeerManager Load → Type 0 where
  here : Reach platform latest s s
  next :
      {m n : PeerManager Load}
      → Reach platform latest s m
      → Step platform latest m n
      → Reach platform latest s n

module _ {Load : Type 0} (platform : Platform Load) where
  merge_one_minimum :
      (m : PeerManager Load) (added : ℕ) (own : String) (p : Entry Load) (scope : String)
      (epoch now : ℕ)
      → (merge_one platform m added own p scope epoch now).0.minimum_generation
        ≡ m.minimum_generation
  unfolding merge_one inserted
  merge_one_minimum m added own p scope epoch now = ground arith

  merge_from_minimum :
      (announced : ℕ → ℕ) (i : ℕ) (m : PeerManager Load) (added : ℕ) (own : String)
      (incoming : List (Entry Load)) (scope : String) (epoch now : ℕ)
      → m.minimum_generation
        ≤ (merge_from platform announced i m added own incoming scope epoch
            now).0.minimum_generation
  unfolding merge_from fetch_max
  merge_from_minimum announced i m added own [] scope epoch now = omega arith
  merge_from_minimum announced i m added own (p ∷ incoming) scope epoch now =
      let m₁ = record m { minimum_generation = max m.minimum_generation (announced i) } in
      let one = merge_one platform m₁ added own p scope epoch now in
      omega (
        arith,
        merge_one_minimum m₁ added own p scope epoch now,
        merge_from_minimum announced (i + 1) one.0 one.1 own incoming scope epoch now,
      )

  -- The announced generation never goes back.
  pub Reach-minimum_generation :
      {latest : ℕ} {s m : PeerManager Load}
      → Reach platform latest s m
      → s.minimum_generation ≤ m.minimum_generation
  unfolding fetch_max sweep prune start touch record_replay
  Reach-minimum_generation here = omega arith
  Reach-minimum_generation (next r (announces m generation)) =
      omega (arith, Reach-minimum_generation r)
  Reach-minimum_generation (next r (sweeps m minimum)) = Reach-minimum_generation r
  Reach-minimum_generation (next r (prunes m now epoch)) = Reach-minimum_generation r
  Reach-minimum_generation (next r (starts m node_id)) = Reach-minimum_generation r
  Reach-minimum_generation (next r (touches m node_id now)) = Reach-minimum_generation r
  Reach-minimum_generation (next r (merges m announced own incoming scope epoch now)) = omega (
    arith,
    Reach-minimum_generation r,
    merge_from_minimum announced 0 m 0 own incoming scope epoch now,
  )
  Reach-minimum_generation (next r (records m now replay_id expires_at within)) =
      ground (arith, Reach-minimum_generation r)

  pub Reach-trans :
      {latest : ℕ} {s m n : PeerManager Load}
      → Reach platform latest s m
      → Reach platform latest m n
      → Reach platform latest s n
  Reach-trans r here = r
  Reach-trans r (next q step) = next (Reach-trans r q) step
