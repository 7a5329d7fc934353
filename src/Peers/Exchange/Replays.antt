-- ===== src/Peers/Exchange/Replays.antt =====
-- An exchange that a `PeerManager` of src/peer_manager.rs accepted is refused when it is repeated.
use iicp_client_rust.Base.{
  ℕ, ◌≤◌, ◌<◌, String, ◌≡◌, refl, sym, ap, ◌∙◌, ◌⊎◌, inl, inr, false, List, some, Result, ok, err,
  arith, ltb, Bool-cases,
}
use iicp_client_rust.Base.Dict.{get}
use iicp_client_rust.Peers.Membership.{
  MembershipEnvelope, MembershipPolicy, Evidence, GossipEnvelope, code, verify_membership,
  verify_gossip,
}
use iicp_client_rust.Peers.Membership.Members.{verify_membership-IsMember, then_ok}
use iicp_client_rust.Peers.Manager.{PeerManager, Entry, raised_policy}
use iicp_client_rust.Peers.Table.{record_replay}
use iicp_client_rust.Peers.Table.Reach.{Reach}
use iicp_client_rust.Peers.Exchange.{
  Wire, RestrictedExchange, parse_restricted_exchange, checked_exchange, answer, accept,
  verify_restricted_exchange,
}
use iicp_client_rust.Peers.Exchange.Records.{
  record_replay_refused, record_replay_recorded, Reach-kept,
}

verify_gossip-current :
    (evidence : Evidence) (gossip : GossipEnvelope) (membership : MembershipEnvelope)
    (policy : MembershipPolicy) (payload : List ℕ) (now : ℕ)
    → verify_gossip evidence gossip membership policy payload now false ≡ ok tt
    → now < membership.assertion.expires_at
unfolding verify_gossip
verify_gossip-current evidence gossip membership policy payload now h =
    let (member, rest) =
      then_ok (verify_membership evidence membership policy gossip.proof.sender_id "peers" now) _
        h in
    (verify_membership-IsMember evidence membership policy gossip.proof.sender_id "peers" now
      member).current

Verdict-cases :
    {E : Type 0} {B : Type 0} (r : Result E B) → ((b : B) × (r ≡ ok b)) ⊎ ((e : E) × (r ≡ err e))
Verdict-cases (ok b) = inl (b, refl)
Verdict-cases (err e) = inr (e, refl)

module _ {Load : Type 0} (wire : Wire Load) where
  -- An exchange that passes the checks is what was parsed, with an assertion that has not expired.
  checked_exchange_lem :
      (minimum : ℕ) (body : List ℕ) (policy : MembershipPolicy) (verified_at : ℕ)
      (x y : RestrictedExchange Load)
      → parse_restricted_exchange wire body ≡ ok x
      → checked_exchange wire minimum body policy verified_at ≡ ok y
      → (x ≡ y) × (verified_at < x.0.assertion.expires_at)
  unfolding checked_exchange
  checked_exchange_lem minimum body policy verified_at x y p h =
      elim (Verdict-cases (
        verify_gossip wire.platform.evidence x.1 x.0 (raised_policy policy minimum) x.3 verified_at
          false)) [
            | inl (done, fine) ↦ (
              cc (rw (p, fine) at h),
              verify_gossip-current wire.platform.evidence x.1 x.0 _ x.3 verified_at fine,
            )
            | inr (e, refused) ↦ let h' = rw (p, refused) at h in absurd (ground arith)
          ]

  answer_lem :
      (peers : List (Entry Load)) (r : PeerManager Load × Result String (Unit {0}))
      {given : List (Entry Load)}
      → (answer wire peers r).1 ≡ ok given
      → (r.1 ≡ ok tt) × ((answer wire peers r).0 ≡ r.0)
  answer_lem peers (m, ok tt) h = (refl, refl)
  answer_lem peers (m, err e) h = absurd (ground arith)

  answer_refused :
      (peers : List (Entry Load)) (r : PeerManager Load × Result String (Unit {0})) {e : String}
      → r.1 ≡ err e
      → (answer wire peers r).1 ≡ err e
  answer_refused peers (m, ok tt) h = absurd (ground arith)
  answer_refused peers (m, err e) h = cc

  not_accepted :
      (m : PeerManager Load) (recorded_at : ℕ) (e : String) {given : List (Entry Load)}
      → (accept wire m recorded_at (err e)).1 ≡ ok given
      → ⊥
  unfolding accept
  not_accepted m recorded_at e h = ground arith

  -- An exchange that is accepted has its identifier recorded.
  accepted_recorded :
      (m : PeerManager Load) (recorded_at : ℕ) (x : RestrictedExchange Load)
      {given : List (Entry Load)}
      → (accept wire m recorded_at (ok x)).1 ≡ ok given
      → get x.1.proof.replay_id (accept wire m recorded_at (ok x)).0.replay_ids
        ≡ some x.0.assertion.expires_at
  unfolding accept
  accepted_recorded m recorded_at x h =
      let (fine, same) =
        answer_lem x.2 (record_replay m recorded_at x.1.proof.replay_id x.0.assertion.expires_at)
          h in
      rw same
        (record_replay_recorded m recorded_at x.1.proof.replay_id x.0.assertion.expires_at fine)

  accept_again :
      (m : PeerManager Load) (recorded_at : ℕ) (x : RestrictedExchange Load) {expires : ℕ}
      → get x.1.proof.replay_id m.replay_ids ≡ some expires
      → recorded_at < expires
      → (accept wire m recorded_at (ok x)).1 ≡ err "gossip_replay"
  unfolding accept code
  accept_again m recorded_at x h l =
      answer_refused x.2 _
        (record_replay_refused m recorded_at x.1.proof.replay_id x.0.assertion.expires_at h l)

  verified_recorded :
      (policy : MembershipPolicy) (others : PeerManager Load → PeerManager Load)
      (m : PeerManager Load) (body : List ℕ) (verified_at recorded_at : ℕ)
      {x : RestrictedExchange Load} {given : List (Entry Load)}
      → parse_restricted_exchange wire body ≡ ok x
      → (verify_restricted_exchange wire others m body policy verified_at recorded_at).1 ≡ ok given
      → get x.1.proof.replay_id
          (verify_restricted_exchange wire others m body policy verified_at
            recorded_at).0.replay_ids
        ≡ some x.0.assertion.expires_at
  unfolding verify_restricted_exchange
  verified_recorded policy others m body verified_at recorded_at {x} p h =
      elim (Verdict-cases (checked_exchange wire m.minimum_generation body policy verified_at)) [
        | inr (e, refused) ↦
            let h' = rw refused at h in absurd (not_accepted (others m) recorded_at e h')
        | inl (z, fine) ↦
            let same =
              (checked_exchange_lem m.minimum_generation body policy verified_at x z p fine).0 in
            let fine' : checked_exchange wire m.minimum_generation body policy verified_at ≡ ok x =
              fine ∙ ap ok (sym same) in
            rw fine' (accepted_recorded (others m) recorded_at x (rw fine' at h))
      ]

  -- An exchange that was accepted is never accepted again when its assertion and replay identifier are presented
  -- again, with whatever body, whatever tasks do before, between the check and the record, and in between, if
  -- no clock that a record is made by in between is ahead of that of the repeated exchange; unless the assertion
  -- runs out between the two readings of the clock of the repeated exchange.
  pub verify_restricted_exchange_once :
      (policy policy' : MembershipPolicy) (others others' : PeerManager Load → PeerManager Load)
      (m : PeerManager Load) {m' : PeerManager Load} (body body' : List ℕ)
      (verified_at recorded_at verified_at' recorded_at' : ℕ) {x y : RestrictedExchange Load}
      {given : List (Entry Load)}
      → parse_restricted_exchange wire body ≡ ok x
      → parse_restricted_exchange wire body' ≡ ok y
      → y.0 ≡ x.0
      → y.1.proof.replay_id ≡ x.1.proof.replay_id
      → (verify_restricted_exchange wire others m body policy verified_at recorded_at).1 ≡ ok given
      → Reach wire.platform recorded_at'
          (verify_restricted_exchange wire others m body policy verified_at recorded_at).0
          m'
      → Reach wire.platform recorded_at' m' (others' m')
      → ((e : String) × ((verify_restricted_exchange wire others' m' body' policy' verified_at'
              recorded_at').1
            ≡ err e))
        ⊎ ((verified_at' < x.0.assertion.expires_at) × (x.0.assertion.expires_at ≤ recorded_at'))
  unfolding verify_restricted_exchange
  verify_restricted_exchange_once policy policy' others others' m {m'} body body' verified_at
        recorded_at verified_at' recorded_at' {x} {y} p q assertion id accepted between meanwhile =
      elim (Verdict-cases
        (checked_exchange wire m'.minimum_generation body' policy' verified_at')) [
          | inr (e, refused) ↦ inl (e, rw refused refl)
          | inl (z, fine) ↦
              let (same, current) =
                checked_exchange_lem m'.minimum_generation body' policy' verified_at' y z q fine in
              elim (Bool-cases (ltb recorded_at' x.0.assertion.expires_at)) [
                | inr late ↦ inr (rw assertion at current, ground arith)
                | inl early ↦
                    let early' : recorded_at' < x.0.assertion.expires_at = ground arith in
                    let recorded =
                      verified_recorded policy others m body verified_at recorded_at p accepted in
                    let kept =
                      Reach-kept wire.platform x.1.proof.replay_id early'
                        (Reach-kept wire.platform x.1.proof.replay_id early' recorded between)
                        meanwhile in
                    let fine' : checked_exchange wire m'.minimum_generation body' policy'
                          verified_at'
                        ≡ ok y =
                      fine ∙ ap ok (sym same) in
                    inl (
                      "gossip_replay",
                      rw fine' (accept_again (others' m') recorded_at' y (rw id kept) early'),
                    )
              ]
        ]
