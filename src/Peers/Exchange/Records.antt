-- ===== src/Peers/Exchange/Records.antt =====
-- The replay identifiers that a `PeerManager` of src/peer_manager.rs keeps.
use iicp_client_rust.Base.{
  ℕ, ◌+◌, ◌≤◌, ◌<◌, String, eq_iff, ◌≡◌, refl, ◌∙◌, List, [], ◌∷◌, some, ok, err, arith, length,
  length-retain-le, retain, ltb,
}
use iicp_client_rust.Base.Dict.{get, get-insert, get-insert_self, length-insert_le}
use iicp_client_rust.Peers.Membership.{code, replay_detected}
use iicp_client_rust.Peers.Manager.{PeerManager, Entry, Platform, inserted, merge_one}
use iicp_client_rust.Peers.Table.{
  fetch_max, sweep, prune, start, touch, max_replay_ids, record_replay, merge_from,
}
use iicp_client_rust.Peers.Table.Reach.{
  Step, announces, sweeps, prunes, starts, touches, merges, records, Reach, here, next,
}

-- An identifier that has not expired is kept.
get-retain_unexpired :
    (now : ℕ) (id : String) (ids : List (String × ℕ)) {expires : ℕ}
    → get id ids ≡ some expires
    → now < expires
    → get id (retain (λ e. ltb now e.1) ids) ≡ some expires
unfolding get
get-retain_unexpired now id [] h l = cc
get-retain_unexpired now id ((j, e) ∷ ids) {expires} h l =
    ground (arith, get-retain_unexpired now id ids {expires = expires})

module _ {Load : Type 0} where
  record_replay_kept :
      (m : PeerManager Load) (now : ℕ) (id other : String) (expires_at : ℕ) {expires : ℕ}
      → get id m.replay_ids ≡ some expires
      → now < expires
      → get id (record_replay m now other expires_at).0.replay_ids ≡ some expires
  unfolding record_replay
  record_replay_kept m now id other expires_at {expires} h l =
      let ids = retain (λ (e : String × ℕ). ltb now e.1) m.replay_ids in
      ground (
        arith,
        get-retain_unexpired now id m.replay_ids h l,
        get-insert other id expires_at ids,
        eq_iff other id,
      )

  pub record_replay_refused :
      (m : PeerManager Load) (now : ℕ) (id : String) (expires_at : ℕ) {expires : ℕ}
      → get id m.replay_ids ≡ some expires
      → now < expires
      → (record_replay m now id expires_at).1 ≡ err (code replay_detected)
  unfolding record_replay code
  record_replay_refused m now id expires_at {expires} h l =
      ground (arith, get-retain_unexpired now id m.replay_ids h l)

  pub record_replay_recorded :
      (m : PeerManager Load) (now : ℕ) (id : String) (expires_at : ℕ)
      → (record_replay m now id expires_at).1 ≡ ok tt
      → get id (record_replay m now id expires_at).0.replay_ids ≡ some expires_at
  unfolding record_replay
  record_replay_recorded m now id expires_at h =
      ground (
        arith,
        get-insert_self id expires_at (retain (λ (e : String × ℕ). ltb now e.1) m.replay_ids),
      )

  record_replay_bounded :
      (m : PeerManager Load) (now : ℕ) (id : String) (expires_at : ℕ)
      → length m.replay_ids ≤ max_replay_ids
      → length (record_replay m now id expires_at).0.replay_ids ≤ max_replay_ids
  unfolding record_replay
  record_replay_bounded m now id expires_at h =
      let ids = retain (λ (e : String × ℕ). ltb now e.1) m.replay_ids in
      ground (
        arith,
        length-retain-le (λ (e : String × ℕ). ltb now e.1) m.replay_ids,
        length-insert_le id expires_at ids,
      )

module _ {Load : Type 0} (platform : Platform Load) where
  merge_one_replay_ids :
      (m : PeerManager Load) (added : ℕ) (own : String) (p : Entry Load) (scope : String)
      (epoch now : ℕ)
      → (merge_one platform m added own p scope epoch now).0.replay_ids ≡ m.replay_ids
  unfolding merge_one inserted
  merge_one_replay_ids m added own p scope epoch now = ground arith

  merge_from_replay_ids :
      (announced : ℕ → ℕ) (i : ℕ) (m : PeerManager Load) (added : ℕ) (own : String)
      (incoming : List (Entry Load)) (scope : String) (epoch now : ℕ)
      → (merge_from platform announced i m added own incoming scope epoch now).0.replay_ids
        ≡ m.replay_ids
  unfolding merge_from fetch_max
  merge_from_replay_ids announced i m added own [] scope epoch now = refl
  merge_from_replay_ids announced i m added own (p ∷ incoming) scope epoch now =
      merge_from_replay_ids announced (i + 1) _ _ own incoming scope epoch now
      ∙ merge_one_replay_ids _ added own p scope epoch now

  -- What a step makes of the identifiers: nothing, or what a record makes of them.
  Step-replay_ids :
      {latest : ℕ} {m n : PeerManager Load} (P : List (String × ℕ) → Type 0)
      → Step platform latest m n
      → ((now : ℕ) (id : String) (expires_at : ℕ)
          → now ≤ latest
          → P (record_replay m now id expires_at).0.replay_ids)
      → P m.replay_ids
      → P n.replay_ids
  unfolding fetch_max sweep prune start touch
  Step-replay_ids P (announces m generation) f h = h
  Step-replay_ids P (sweeps m minimum) f h = h
  Step-replay_ids P (prunes m now epoch) f h = h
  Step-replay_ids P (starts m node_id) f h = h
  Step-replay_ids P (touches m node_id now) f h = h
  Step-replay_ids P (merges m announced own incoming scope epoch now) f h =
      rw (merge_from_replay_ids announced 0 m 0 own incoming scope epoch now) h
  Step-replay_ids P (records m now replay_id expires_at within) f h =
      f now replay_id expires_at within

  pub Reach-kept :
      {latest : ℕ} {m n : PeerManager Load} (id : String) {expires : ℕ}
      → latest < expires
      → get id m.replay_ids ≡ some expires
      → Reach platform latest m n
      → get id n.replay_ids ≡ some expires
  Reach-kept id l h here = h
  Reach-kept id {expires} l h (next {m} r step) =
      let before = Reach-kept id l h r in
      Step-replay_ids (λ ids. get id ids ≡ some expires) step
        (λ now other expires_at within.
          record_replay_kept m now id other expires_at before (omega arith))
        before

  pub Reach-bounded :
      {latest : ℕ} {m n : PeerManager Load}
      → length m.replay_ids ≤ max_replay_ids
      → Reach platform latest m n
      → length n.replay_ids ≤ max_replay_ids
  Reach-bounded h here = h
  Reach-bounded h (next {m} r step) =
      let before = Reach-bounded h r in
      Step-replay_ids (λ ids. length ids ≤ max_replay_ids) step
        (λ now other expires_at within. record_replay_bounded m now other expires_at before) before
