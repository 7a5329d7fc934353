-- ===== src/Peers/Table/Current.antt =====
-- What a `PeerManager` of a restricted domain hands out, in src/peer_manager.rs: no peer of a generation that was
-- revoked, and only members that are current.
use iicp_client_rust.Base.{
  ℕ, ◌-◌, ◌≤◌, ◌<◌, String, ◌≡◌, refl, true, ◌&&◌, List, [], ◌∷◌, some, arith, All, All-retain,
  retain, retain-All, ltb, leb, Bool-cases, inl, inr,
}
use iicp_client_rust.Base.Dict.{All-get}
use iicp_client_rust.Peers.Membership.{MembershipPolicy, Evidence}
use iicp_client_rust.Peers.Manager.{
  PeerInfo, PeerManager, Platform, restricted, peer_expiry, is_none_or, with_opts,
}
use iicp_client_rust.Peers.Table.{
  fetch_max, is_at_least, sweep, update_minimum_generation, is_unpruned, prune, relay_target,
}
use iicp_client_rust.Peers.Table.Reach.{Reach, Reach-minimum_generation, Reach-trans}
use iicp_client_rust.Peers.Table.Admitted.{
  IsAdmitted, IsRestricted, fetch_max-IsRestricted, Reach-IsRestricted,
}

module _ {Load : Type 0} (evidence : Evidence) (policy : MembershipPolicy) where
  -- What stays under a minimum is at least of that generation.
  retain-IsAdmitted :
      (least minimum generation : ℕ) (peers : List (String × PeerInfo Load))
      → generation ≤ minimum
      → All (IsAdmitted evidence policy least) peers
      → All (IsAdmitted evidence policy generation) (retain (λ e. is_at_least minimum e.1) peers)
  retain-IsAdmitted least minimum generation [] low v = tt
  retain-IsAdmitted least minimum generation (e ∷ peers) low (known, v) =
      elim (Bool-cases (is_at_least minimum e.1)) [
        | inr dropped ↦ rw dropped (retain-IsAdmitted least minimum generation peers low v)
        | inl stays ↦ rw stays (
          record {
            envelope = known.envelope;
            scope = known.scope;
            epoch = known.epoch;
            admitted_as = known.admitted_as;
            recent = at_least known.envelope.assertion.generation (rw known.generation at stays);
            named = known.named;
            held = known.held;
            generation = known.generation;
            expires = known.expires;
            domain = known.domain;
          },
          retain-IsAdmitted least minimum generation peers low v,
        )
      ]
    where
      at_least : (n : ℕ) → is_none_or (some n) (λ g. leb minimum g) ≡ true → generation ≤ n
      at_least n h = ground arith

  sweep-IsRestricted :
      (m : PeerManager Load) (least minimum generation : ℕ)
      → generation ≤ minimum
      → generation ≤ m.minimum_generation
      → IsRestricted evidence policy least m
      → IsRestricted evidence policy generation (sweep m minimum).0
  unfolding sweep
  sweep-IsRestricted m least minimum generation low a v = record {
    mode = v.mode;
    announced = a;
    admitted = retain-IsAdmitted least minimum generation m.peers low v.admitted;
  }

  pub with_opts-IsRestricted :
      (node_token : String)
      → IsRestricted evidence policy policy.minimum_generation
          (with_opts {Load = Load} node_token (restricted policy))
  unfolding with_opts
  with_opts-IsRestricted node_token = record { mode = refl; announced = omega arith; admitted = tt }

fetch_max-le :
    {Load : Type 0} (m : PeerManager Load) (generation : ℕ)
    → generation ≤ (fetch_max m generation).minimum_generation
unfolding fetch_max
fetch_max-le m generation = omega arith

-- In a restricted domain, for a manager that any tasks used since it was new: once update_minimum_generation has returned, every peer of the table is, at any later
-- time, a member of the domain of at least that generation, whatever other tasks announce, merge, prune and sweep
-- before it, between its accesses, and after it.
pub update_minimum_generation-IsRestricted :
    {Load : Type 0} (platform : Platform Load) (policy : MembershipPolicy) (node_token : String)
    (generation latest : ℕ) (before_load before_lock : PeerManager Load → PeerManager Load)
    {m later : PeerManager Load}
    → ((s : PeerManager Load) → Reach platform latest s (before_load s))
    → ((s : PeerManager Load) → Reach platform latest s (before_lock s))
    → Reach platform latest (with_opts node_token (restricted policy)) m
    → Reach platform latest (update_minimum_generation before_load before_lock m generation).0 later
    → IsRestricted platform.evidence policy generation later
unfolding update_minimum_generation
update_minimum_generation-IsRestricted platform policy node_token generation latest before_load
      before_lock {m} others₁ others₂ r after =
    let least = policy.minimum_generation in
    let v =
      Reach-IsRestricted platform policy least r
        (with_opts-IsRestricted platform.evidence policy node_token) in
    let raised = fetch_max m generation in
    let loaded = before_load raised in
    let r₁ = others₁ raised in
    let r₂ = others₂ loaded in
    let announced : generation ≤ raised.minimum_generation = fetch_max-le m generation in
    let low : generation ≤ loaded.minimum_generation =
      omega (arith, Reach-minimum_generation platform r₁) in
    let swept =
      sweep-IsRestricted platform.evidence policy (before_lock loaded) least
        loaded.minimum_generation generation low
        (omega (arith, Reach-minimum_generation platform r₂))
        (Reach-IsRestricted platform policy least (Reach-trans platform r₁ r₂)
          (fetch_max-IsRestricted platform policy least m generation v)) in
    Reach-IsRestricted platform policy generation after swept

is_unpruned_lem :
    {Load : Type 0} (now epoch : ℕ) (peer : PeerInfo Load)
    → is_unpruned now epoch peer ≡ true
    → (now - peer.last_contact < peer_expiry)
      × ((expires : ℕ) → peer.membership_expires_at ≡ some expires → epoch < expires)
is_unpruned_lem now epoch peer h = (ground arith, λ expires e. unexpired expires (rw e at h))
  where
    unexpired :
        (expires : ℕ)
        → ltb (now - peer.last_contact) peer_expiry && ltb epoch expires ≡ true
        → epoch < expires
    unexpired expires h = ground arith

-- In a restricted domain, whatever tasks did to a new manager before: a peer that relay_target gives, if no other
-- task acts between its prune and its lookup, stands under the identifier that was asked for, carries an
-- assertion that a member of the domain was admitted with and that has not expired, and was in contact less than
-- 90 seconds ago.
pub relay_target-IsAdmitted :
    {Load : Type 0} (platform : Platform Load) (policy : MembershipPolicy) (node_token : String)
    (latest now epoch : ℕ) (node_id : String) {m : PeerManager Load} {peer : PeerInfo Load}
    → Reach platform latest (with_opts node_token (restricted policy)) m
    → (relay_target (λ s. s) m now epoch node_id).1 ≡ some peer
    → (admitted : IsAdmitted platform.evidence policy policy.minimum_generation (node_id, peer))
      × (epoch < admitted.envelope.assertion.expires_at)
      × (now - peer.last_contact < peer_expiry)
unfolding relay_target prune
relay_target-IsAdmitted platform policy node_token latest now epoch node_id {m} {peer} r h =
    let v =
      Reach-IsRestricted platform policy policy.minimum_generation r
        (with_opts-IsRestricted platform.evidence policy node_token) in
    let alive =
      All-get (λ (e : String × PeerInfo _). is_unpruned now epoch e.1 ≡ true) node_id _
        (retain-All (λ (e : String × PeerInfo _). is_unpruned now epoch e.1) m.peers) h in
    let admitted =
      All-get (IsAdmitted platform.evidence policy policy.minimum_generation) node_id _
        (All-retain _ _ m.peers v.admitted) h in
    (
      admitted,
      (is_unpruned_lem now epoch peer alive).1 _ admitted.expires,
      (is_unpruned_lem now epoch peer alive).0,
    )
