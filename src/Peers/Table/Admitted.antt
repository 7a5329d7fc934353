-- ===== src/Peers/Table/Admitted.antt =====
-- Who gets into the table of a `PeerManager` of a restricted domain, in src/peer_manager.rs.
use iicp_client_rust.Base.{
  ℕ, ◌+◌, ◌≤◌, String, ◌==◌, ◌≡◌, refl, ap, ◌||◌, List, [], ◌∷◌, Option, none, some, ok, err, arith,
  All, All-retain, Bool-cases, Option-cases, inl, inr,
}
use iicp_client_rust.Base.Dict.{get, All-insert, All-get}
use iicp_client_rust.Peers.Membership.{
  MembershipEnvelope, MembershipPolicy, Evidence, Verdict, verify_membership,
}
use iicp_client_rust.Peers.Membership.Members.{IsMember, verify_membership-IsMember}
use iicp_client_rust.Peers.Manager.{
  PeerInfo, PeerManager, Entry, Platform, restricted, unwrap_or, map_some, raised_policy, kept,
  verified_restricted_membership, valid_restricted_peer, admitted_under, admitted_membership,
  peer_info, inserted, merge_one,
}
use iicp_client_rust.Peers.Table.{
  fetch_max, sweep, prune, start, touch, touched, record_replay, merge_from,
}
use iicp_client_rust.Peers.Table.Reach.{
  Step, announces, sweeps, prunes, starts, touches, merges, records, Reach, here, next,
}

-- A peer under its identifier, with an assertion that was one of a member of the domain at some time, for some
-- scope, and is of a generation that is at least `least`.
pub record IsAdmitted {Load : Type 0} (evidence : Evidence) (policy : MembershipPolicy) (least : ℕ)
    (e : String × PeerInfo Load) : Type 0 where
  pub envelope : MembershipEnvelope
  pub scope : String
  pub epoch : ℕ
  pub admitted_as : IsMember evidence policy e.0 scope epoch envelope
  pub recent : least ≤ envelope.assertion.generation
  pub named : e.1.node_id ≡ e.0
  pub held : e.1.membership ≡ some envelope
  pub generation : e.1.membership_generation ≡ some envelope.assertion.generation
  pub expires : e.1.membership_expires_at ≡ some envelope.assertion.expires_at
  pub domain : e.1.trust_domain_id ≡ some policy.domain_id

pub record IsRestricted {Load : Type 0} (evidence : Evidence) (policy : MembershipPolicy)
    (least : ℕ) (m : PeerManager Load) : Type 0 where
  pub mode : m.admission ≡ restricted policy
  pub announced : least ≤ m.minimum_generation
  pub admitted : All (IsAdmitted evidence policy least) m.peers

-- Under a raised policy a member is one under the policy, of a generation that is at least the raised one.
lowered :
    (evidence : Evidence) (policy : MembershipPolicy) (minimum : ℕ) (node scope : String)
    (epoch : ℕ) (envelope : MembershipEnvelope)
    → IsMember evidence (raised_policy policy minimum) node scope epoch envelope
    → IsMember evidence policy node scope epoch envelope × (minimum ≤ envelope.assertion.generation)
unfolding raised_policy
lowered evidence policy minimum node scope epoch envelope v = (
  record {
    domain = v.domain;
    audience = v.audience;
    authority = v.authority;
    authority_key = v.authority_key;
    subject = v.subject;
    scoped = v.scoped;
    issued = v.issued;
    current = v.current;
    generation = omega (arith, v.generation);
    signed = v.signed;
  },
  omega (arith, v.generation),
)

kept_lem :
    (envelope : MembershipEnvelope) (verdict : Verdict) {found : MembershipEnvelope}
    → kept envelope verdict ≡ some found
    → (envelope ≡ found) × (verdict ≡ ok tt)
unfolding kept
kept_lem envelope (ok tt) h = (ground arith, refl)
kept_lem envelope (err refusal) h = absurd (ground arith)

module _ {Load : Type 0} (platform : Platform Load) (policy : MembershipPolicy) (least : ℕ) where
  admitted_entry :
      (m : PeerManager Load) (peer : Entry Load) (node scope : String) (epoch : ℕ)
      {found : MembershipEnvelope}
      → least ≤ m.minimum_generation
      → verified_restricted_membership platform m peer node scope epoch policy ≡ some found
      → IsMember platform.evidence policy node scope epoch found
        × (least ≤ found.assertion.generation)
  unfolding verified_restricted_membership
  admitted_entry m peer node scope epoch {found} a h =
      elim (Bool-cases (valid_restricted_peer platform peer)) [
        | inr invalid ↦ absurd (cc (rw invalid at h))
        | inl valid ↦ elim (Option-cases peer.membership) [
          | inl missing ↦ absurd (ground arith)
          | inr (envelope, given) ↦
              let raised = raised_policy policy m.minimum_generation in
              let (same, fine) =
                kept_lem envelope
                  (verify_membership platform.evidence envelope raised node scope epoch)
                  (rw (valid, given) at h) in
              let (member, recent) =
                lowered platform.evidence policy m.minimum_generation node scope epoch found (
                  verify_membership-IsMember platform.evidence found raised node scope epoch
                    (rw same at fine)) in
              (member, omega arith)
        ]
      ]

  inserted-IsRestricted :
      (m : PeerManager Load) (added : ℕ) (p : Entry Load) (nid scope : String) (epoch now : ℕ)
      (found : Option MembershipEnvelope)
      → verified_restricted_membership platform m p nid scope epoch policy ≡ found
      → IsRestricted platform.evidence policy least m
      → IsRestricted platform.evidence policy least
          (inserted platform m added p nid now (map_some some found)).0
  unfolding inserted
  inserted-IsRestricted m added p nid scope epoch now none e v = v
  inserted-IsRestricted m added p nid scope epoch now (some envelope) e v =
      let (member, recent) = admitted_entry m p nid scope epoch v.announced e in
      let entry : IsAdmitted platform.evidence policy least
          (nid, peer_info platform p nid (some envelope) now) =
        record {
          envelope = envelope;
          scope = scope;
          epoch = epoch;
          admitted_as = member;
          recent = recent;
          named = refl;
          held = refl;
          generation = refl;
          expires = refl;
          domain = ap some member.domain;
        } in
      record {
        mode = v.mode;
        announced = v.announced;
        admitted =
            All-insert (IsAdmitted platform.evidence policy least) nid _ m.peers entry v.admitted;
      }

  admitted_membership_lem :
      (m : PeerManager Load) (p : Entry Load) (nid scope : String) (epoch : ℕ)
      → m.admission ≡ restricted policy
      → admitted_membership platform m p nid scope epoch
        ≡ map_some some (verified_restricted_membership platform m p nid scope epoch policy)
  unfolding admitted_membership admitted_under
  admitted_membership_lem m p nid scope epoch e =
      ap (λ mode. admitted_under platform m mode p nid scope epoch) e

  merge_one-IsRestricted :
      (m : PeerManager Load) (added : ℕ) (own : String) (p : Entry Load) (scope : String)
      (epoch now : ℕ)
      → IsRestricted platform.evidence policy least m
      → IsRestricted platform.evidence policy least
          (merge_one platform m added own p scope epoch now).0
  unfolding merge_one
  merge_one-IsRestricted m added own p scope epoch now v =
      let nid = unwrap_or p.node_id "" in
      elim (Bool-cases (nid == "" || nid == own)) [
        | inl skipped ↦ rw skipped v
        | inr other ↦
            rw (other, admitted_membership_lem m p nid scope epoch v.mode)
              (inserted-IsRestricted m added p nid scope epoch now _ refl v)
      ]

  pub fetch_max-IsRestricted :
      (m : PeerManager Load) (generation : ℕ)
      → IsRestricted platform.evidence policy least m
      → IsRestricted platform.evidence policy least (fetch_max m generation)
  unfolding fetch_max
  fetch_max-IsRestricted m generation v = record {
    mode = v.mode;
    announced = omega (arith, v.announced);
    admitted = v.admitted;
  }

  merge_from-IsRestricted :
      (announced : ℕ → ℕ) (i : ℕ) (m : PeerManager Load) (added : ℕ) (own : String)
      (incoming : List (Entry Load)) (scope : String) (epoch now : ℕ)
      → IsRestricted platform.evidence policy least m
      → IsRestricted platform.evidence policy least
          (merge_from platform announced i m added own incoming scope epoch now).0
  unfolding merge_from
  merge_from-IsRestricted announced i m added own [] scope epoch now v = v
  merge_from-IsRestricted announced i m added own (p ∷ incoming) scope epoch now v =
      merge_from-IsRestricted announced (i + 1) _ _ own incoming scope epoch now (
        merge_one-IsRestricted _ added own p scope epoch now
          (fetch_max-IsRestricted m (announced i) v))

  touched-All :
      (peers : List (String × PeerInfo Load)) (node : String) (now : ℕ)
      (found : Option (PeerInfo Load))
      → get node peers ≡ found
      → All (IsAdmitted platform.evidence policy least) peers
      → All (IsAdmitted platform.evidence policy least) (touched peers node now found)
  touched-All peers node now none e v = v
  touched-All peers node now (some peer) e v =
      let known = All-get (IsAdmitted platform.evidence policy least) node peers v e in
      All-insert (IsAdmitted platform.evidence policy least) node _ peers
        (record {
          envelope = known.envelope;
          scope = known.scope;
          epoch = known.epoch;
          admitted_as = known.admitted_as;
          recent = known.recent;
          named = known.named;
          held = known.held;
          generation = known.generation;
          expires = known.expires;
          domain = known.domain;
        })
        v

  record_replay_ids :
      (m : PeerManager Load) (now : ℕ) (replay_id : String) (expires_at : ℕ)
      → (record_replay m now replay_id expires_at).0
        ≡ record m { replay_ids = (record_replay m now replay_id expires_at).0.replay_ids }
  unfolding record_replay
  record_replay_ids m now replay_id expires_at = ground arith

  Step-IsRestricted :
      {latest : ℕ} {m n : PeerManager Load}
      → Step platform latest m n
      → IsRestricted platform.evidence policy least m
      → IsRestricted platform.evidence policy least n
  unfolding sweep prune start touch
  Step-IsRestricted (announces m generation) v = fetch_max-IsRestricted m generation v
  Step-IsRestricted (sweeps m minimum) v = record {
    mode = v.mode;
    announced = v.announced;
    admitted = All-retain _ _ m.peers v.admitted;
  }
  Step-IsRestricted (prunes m now epoch) v = record {
    mode = v.mode;
    announced = v.announced;
    admitted = All-retain _ _ m.peers v.admitted;
  }
  Step-IsRestricted (starts m node_id) v = record {
    mode = v.mode;
    announced = v.announced;
    admitted = v.admitted;
  }
  Step-IsRestricted (touches m node_id now) v = record {
    mode = v.mode;
    announced = v.announced;
    admitted = touched-All m.peers node_id now _ refl v.admitted;
  }
  Step-IsRestricted (merges m announced own incoming scope epoch now) v =
      merge_from-IsRestricted announced 0 m 0 own incoming scope epoch now v
  Step-IsRestricted (records m now replay_id expires_at within) v =
      rw (record_replay_ids m now replay_id expires_at)
        (record { mode = v.mode; announced = v.announced; admitted = v.admitted })

  pub Reach-IsRestricted :
      {latest : ℕ} {s m : PeerManager Load}
      → Reach platform latest s m
      → IsRestricted platform.evidence policy least s
      → IsRestricted platform.evidence policy least m
  Reach-IsRestricted here v = v
  Reach-IsRestricted (next r step) v = Step-IsRestricted step (Reach-IsRestricted r v)
