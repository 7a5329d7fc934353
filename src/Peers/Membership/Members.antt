-- ===== src/Peers/Membership/Members.antt =====
-- What an assertion of membership must be, and a proof of gossip: src/restricted_membership.rs.
use iicp_client_rust.Base.{
  ℕ, ◌+◌, ◌≤◌, ◌<◌, ◌++◌, String, eq_iff, ◌≡◌, refl, true, List, Option, none, some, Result, ok,
  err, arith, ◌>>◌, one_of,
}
use iicp_client_rust.Peers.Membership.{
  MembershipAssertion, MembershipEnvelope, MembershipPolicy, Evidence, membership_domain,
  validate_membership_shape, validate_membership_lifecycle, validate_membership_identity,
  verify_signature, verify_membership_signature, verify_membership,
}

-- A message that a key has signed in a domain, in its canonical bytes.
pub record IsSigned (evidence : Evidence) (key value : String) (domain : List ℕ)
    (canonical : Option (List ℕ)) : Type 0 where
  pub bytes : List ℕ
  pub is_canonical : canonical ≡ some bytes
  pub signed : evidence.verify key (domain ++ bytes) value ≡ true

-- An assertion of a node's membership of the policy's domain, with a scope, at a time.
pub record IsMember (evidence : Evidence) (policy : MembershipPolicy) (node scope : String)
    (now : ℕ) (envelope : MembershipEnvelope) : Type 0 where
  pub domain : envelope.assertion.domain_id ≡ policy.domain_id
  pub audience : one_of envelope.assertion.audience policy.domain_id ≡ true
  pub authority : envelope.assertion.issuer.id ≡ policy.authority_id
  pub authority_key : envelope.assertion.issuer.key_id ≡ policy.authority_key_id
  pub subject : envelope.assertion.subject.id ≡ node
  pub scoped : one_of envelope.assertion.scopes scope ≡ true
  pub issued : envelope.assertion.issued_at ≤ now + policy.maximum_clock_skew_seconds
  pub current : now < envelope.assertion.expires_at
  pub generation : policy.minimum_generation ≤ envelope.assertion.generation
  pub signed :
      IsSigned evidence policy.authority_public_key_ed25519 envelope.signature.value
        membership_domain
        (evidence.assertion_bytes envelope.assertion)

pub then_ok :
    {E B : Type 0} (m : Result E (Unit {0})) (k : Result E B) {b : B}
    → (m >> k) ≡ ok b
    → (m ≡ ok tt) × (k ≡ ok b)
then_ok (ok tt) k h = (refl, h)
then_ok (err e) k h = cc

module _ (evidence : Evidence) where
  verify_signature-IsSigned :
      (key value : String) (domain : List ℕ) (canonical : Option (List ℕ))
      → verify_signature evidence key value domain canonical ≡ ok tt
      → IsSigned evidence key value domain canonical
  unfolding verify_signature
  verify_signature-IsSigned key value domain none h = absurd (ground arith)
  verify_signature-IsSigned key value domain (some bytes) h = record {
    bytes = bytes;
    is_canonical = refl;
    signed = ground arith;
  }

  lifecycle_lem :
      (a : MembershipAssertion) (policy : MembershipPolicy) (scope : String) (now : ℕ)
      → validate_membership_lifecycle a policy scope now ≡ ok tt
      → (a.issued_at ≤ now + policy.maximum_clock_skew_seconds)
        × (now < a.expires_at)
        × (policy.minimum_generation ≤ a.generation)
        × (one_of a.scopes scope ≡ true)
  unfolding validate_membership_lifecycle
  lifecycle_lem a policy scope now h = (ground arith, ground arith, ground arith, ground arith)

  identity_lem :
      (envelope : MembershipEnvelope) (policy : MembershipPolicy) (node : String)
      → validate_membership_identity envelope policy node ≡ ok tt
      → (envelope.assertion.domain_id ≡ policy.domain_id)
        × (one_of envelope.assertion.audience policy.domain_id ≡ true)
        × (envelope.assertion.issuer.id ≡ policy.authority_id)
        × (envelope.assertion.issuer.key_id ≡ policy.authority_key_id)
        × (envelope.assertion.subject.id ≡ node)
  unfolding validate_membership_identity
  identity_lem envelope policy node h =
      let a = envelope.assertion in
      (
        ground (arith, eq_iff a.domain_id policy.domain_id),
        ground arith,
        ground (arith, eq_iff a.issuer.id policy.authority_id),
        ground (arith, eq_iff a.issuer.key_id policy.authority_key_id),
        ground (arith, eq_iff a.subject.id node),
      )

  pub verify_membership-IsMember :
      (envelope : MembershipEnvelope) (policy : MembershipPolicy) (node scope : String) (now : ℕ)
      → verify_membership evidence envelope policy node scope now ≡ ok tt
      → IsMember evidence policy node scope now envelope
  unfolding verify_membership verify_membership_signature
  verify_membership-IsMember envelope policy node scope now h =
      let (shape, h₁) = then_ok (validate_membership_shape evidence envelope.assertion) _ h in
      let (identity, h₂) = then_ok (validate_membership_identity envelope policy node) _ h₁ in
      let (lifecycle, signature) =
        then_ok (validate_membership_lifecycle envelope.assertion policy scope now) _ h₂ in
      let (domain, audience, authority, authority_key, subject) =
        identity_lem envelope policy node identity in
      let (issued, current, generation, scoped) =
        lifecycle_lem envelope.assertion policy scope now lifecycle in
      record {
        domain = domain;
        audience = audience;
        authority = authority;
        authority_key = authority_key;
        subject = subject;
        scoped = scoped;
        issued = issued;
        current = current;
        generation = generation;
        signed = verify_signature-IsSigned _ _ _ _ signature;
      }
