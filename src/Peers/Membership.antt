-- ===== src/Peers/Membership.antt =====
-- src/restricted_membership.rs: assertions of membership in a trust domain, and the proofs with which members
-- sign what they gossip. What is not under src/ is the argument `Evidence`: a key or a signature is the text
-- that holds it. The bytes of a JSON value are those of its canonical form.
pub mod Members
use iicp_client_rust.Base.{
  ℕ, ◌++◌, String, ◌==◌, Bool, true, false, not, ◌&&◌, ◌||◌, List, [], ◌∷◌, Option, none, some,
  Result, ok, err, ◌>>=◌, ◌>>◌, ensure, ok_or, ltb, leb, one_of, all, any, eqb,
}
use iicp_client_rust.Base.Words.{saturating_add, saturating_sub}
use iicp_client_rust.Base.Texts.{codes, is_blank}

pub record MembershipSubject : Type 0 where
  pub kind : String
  pub id : String
  pub key_id : String
  pub public_key_ed25519 : String

pub record MembershipIssuer : Type 0 where
  pub id : String
  pub key_id : String

pub record MembershipAssertion : Type 0 where
  pub schema : String
  pub profile : String
  pub assertion_id : String
  pub domain_id : String
  pub subject : MembershipSubject
  pub issuer : MembershipIssuer
  pub issued_at : ℕ
  pub expires_at : ℕ
  pub generation : ℕ
  pub scopes : List String
  pub audience : List String

pub record DetachedSignature : Type 0 where
  pub algorithm : String
  pub key_id : Option String
  pub value : String

pub record MembershipEnvelope : Type 0 where
  pub assertion : MembershipAssertion
  pub signature : DetachedSignature

pub record GossipProof : Type 0 where
  pub sender_id : String
  pub domain_id : String
  pub sent_at : ℕ
  pub replay_id : String
  pub payload_sha256 : String
  pub membership_assertion_id : String

pub record GossipEnvelope : Type 0 where
  pub proof : GossipProof
  pub signature : DetachedSignature

pub record MembershipPolicy : Type 0 where
  pub domain_id : String
  pub authority_id : String
  pub authority_key_id : String
  pub authority_public_key_ed25519 : String
  pub minimum_generation : ℕ
  pub maximum_clock_skew_seconds : ℕ

pub data MembershipRefusal : Type 0 where
  malformed_evidence : MembershipRefusal
  unsupported_evidence : MembershipRefusal
  invalid_authority : MembershipRefusal
  invalid_signature : MembershipRefusal
  wrong_domain : MembershipRefusal
  wrong_subject : MembershipRefusal
  expired : MembershipRefusal
  not_yet_valid : MembershipRefusal
  revoked_generation : MembershipRefusal
  missing_scope : MembershipRefusal
  invalid_payload_binding : MembershipRefusal
  replay_detected : MembershipRefusal
  replay_capacity : MembershipRefusal
  stale_gossip : MembershipRefusal
  missing_directory_credential : MembershipRefusal

unfoldable pub code : MembershipRefusal → String
code malformed_evidence = "membership_malformed"
code unsupported_evidence = "membership_unsupported"
code invalid_authority = "membership_authority_invalid"
code invalid_signature = "membership_signature_invalid"
code wrong_domain = "membership_domain_mismatch"
code wrong_subject = "membership_subject_mismatch"
code expired = "membership_expired"
code not_yet_valid = "membership_not_yet_valid"
code revoked_generation = "membership_generation_revoked"
code missing_scope = "membership_scope_missing"
code invalid_payload_binding = "gossip_payload_mismatch"
code replay_detected = "gossip_replay"
code replay_capacity = "gossip_replay_capacity"
code stale_gossip = "gossip_stale"
code missing_directory_credential = "directory_membership_missing"

-- What the code calls of the libraries: `Uuid::parse_str` succeeds, a text is a key or a signature in base64,
-- canonical JSON, Ed25519 and SHA-256.
pub record Evidence : Type 0 where
  pub is_uuid : String → Bool
  pub is_key : String → Bool
  pub is_signature : String → Bool
  pub assertion_bytes : MembershipAssertion → Option (List ℕ)
  pub proof_bytes : GossipProof → Option (List ℕ)
  pub verify : String → List ℕ → String → Bool
  pub sha256_hex : List ℕ → String

abbrev pub membership_schema : String
membership_schema = "iicp.restricted-trust-domain.membership-assertion.v0"

abbrev pub restricted_profile : String
restricted_profile = "urn:iicp:profile:restricted-trust-domain:v1"

abbrev pub membership_domain : List ℕ
membership_domain = codes "IICP-RTD-MEMBERSHIP-V0" ++ b'\n' ∷ []

abbrev pub gossip_domain : List ℕ
gossip_domain = codes "IICP-RTD-GOSSIP-V0" ++ b'\n' ∷ []

abbrev pub Verdict : Type 0
Verdict = Result MembershipRefusal (Unit {0})

unfoldable pub validate_membership_issuer : MembershipAssertion → Verdict
validate_membership_issuer a =
    ensure (not (is_blank a.issuer.id || is_blank a.issuer.key_id)) malformed_evidence

abbrev pub is_empty : List String → Bool
is_empty [] = true
is_empty (x ∷ xs) = false

unfoldable pub validate_membership_collections : MembershipAssertion → Verdict
unfolding validate_membership_issuer
validate_membership_collections a = do
  validate_membership_issuer a
  ensure (not (is_empty a.audience || is_empty a.scopes || leb a.expires_at a.issued_at))
      malformed_evidence

unfoldable pub validate_membership_time : MembershipAssertion → MembershipPolicy → ℕ → Verdict
validate_membership_time a policy now = do
  ensure (not (ltb (saturating_add now policy.maximum_clock_skew_seconds) a.issued_at))
      not_yet_valid
  ensure (not (leb a.expires_at now)) expired

unfoldable pub validate_membership_generation : MembershipAssertion → MembershipPolicy → Verdict
validate_membership_generation a policy =
    ensure (not (ltb a.generation policy.minimum_generation)) revoked_generation

unfoldable pub validate_membership_lifecycle :
    MembershipAssertion → MembershipPolicy → String → ℕ → Verdict
unfolding validate_membership_time validate_membership_generation
validate_membership_lifecycle a policy required_scope now = do
  validate_membership_time a policy now
  validate_membership_generation a policy
  ensure (one_of a.scopes required_scope) missing_scope

unfoldable pub validate_membership_format : MembershipEnvelope → Verdict
validate_membership_format envelope =
    ensure
      (envelope.assertion.schema == membership_schema
        && envelope.assertion.profile == restricted_profile
        && envelope.signature.algorithm == "Ed25519")
      unsupported_evidence

unfoldable pub validate_membership_authority : MembershipAssertion → MembershipPolicy → Verdict
validate_membership_authority a policy = do
  ensure (a.issuer.id == policy.authority_id && a.issuer.key_id == policy.authority_key_id)
      invalid_authority
  ensure (a.domain_id == policy.domain_id && one_of a.audience policy.domain_id) wrong_domain

unfoldable pub validate_membership_identity :
    MembershipEnvelope → MembershipPolicy → String → Verdict
unfolding validate_membership_format validate_membership_authority
validate_membership_identity envelope policy expected_subject = do
  validate_membership_format envelope
  validate_membership_authority envelope.assertion policy
  ensure
      (envelope.assertion.subject.kind == "node"
        && envelope.assertion.subject.id == expected_subject)
      wrong_subject

abbrev pub is_key_id : Option String → String → Bool
is_key_id none key_id = false
is_key_id (some text) key_id = text == key_id

unfoldable pub validate_gossip_format : GossipEnvelope → MembershipEnvelope → Verdict
validate_gossip_format gossip membership =
    ensure
      (gossip.signature.algorithm == "Ed25519"
        && is_key_id gossip.signature.key_id membership.assertion.subject.key_id)
      unsupported_evidence

unfoldable pub validate_gossip_binding :
    GossipEnvelope → MembershipEnvelope → MembershipPolicy → Verdict
validate_gossip_binding gossip membership policy = do
  ensure (gossip.proof.domain_id == policy.domain_id) wrong_domain
  ensure (gossip.proof.membership_assertion_id == membership.assertion.assertion_id) wrong_subject

module _ (evidence : Evidence) where
  unfoldable pub validate_membership_shape : MembershipAssertion → Verdict
  unfolding validate_membership_collections
  validate_membership_shape a = do
    ensure
        (evidence.is_uuid a.assertion_id
          && not (is_blank a.domain_id || is_blank a.subject.id || is_blank a.subject.key_id))
        malformed_evidence
    validate_membership_collections a

  -- `verifying_key`, `signature` and the check of the signature of a message.
  unfoldable pub verify_signature : String → String → List ℕ → Option (List ℕ) → Verdict
  verify_signature key value domain canonical = do
    ensure (evidence.is_key key) malformed_evidence
    ensure (evidence.is_signature value) malformed_evidence
    bytes ← ok_or canonical malformed_evidence
    ensure (evidence.verify key (domain ++ bytes) value) invalid_signature

  unfoldable pub verify_membership_signature : MembershipEnvelope → MembershipPolicy → Verdict
  unfolding verify_signature
  verify_membership_signature envelope policy =
      verify_signature policy.authority_public_key_ed25519 envelope.signature.value
        membership_domain (evidence.assertion_bytes envelope.assertion)

  unfoldable pub verify_membership :
      MembershipEnvelope → MembershipPolicy → String → String → ℕ → Verdict
  verify_membership envelope policy expected_subject required_scope now = do
    validate_membership_shape envelope.assertion
    validate_membership_identity envelope policy expected_subject
    validate_membership_lifecycle envelope.assertion policy required_scope now
    verify_membership_signature envelope policy

  unfoldable pub validate_gossip_identity :
      GossipEnvelope → MembershipEnvelope → MembershipPolicy → Bool → Verdict
  unfolding validate_gossip_format validate_gossip_binding
  validate_gossip_identity gossip membership policy replay_seen = do
    ensure (evidence.is_uuid gossip.proof.replay_id) malformed_evidence
    validate_gossip_format gossip membership
    validate_gossip_binding gossip membership policy
    ensure (not replay_seen) replay_detected

  unfoldable pub validate_gossip_freshness_and_payload :
      GossipEnvelope → MembershipPolicy → List ℕ → ℕ → Verdict
  validate_gossip_freshness_and_payload gossip policy payload now = do
    ensure
        (not (
          ltb (saturating_add now policy.maximum_clock_skew_seconds) gossip.proof.sent_at
          || ltb policy.maximum_clock_skew_seconds (saturating_sub now gossip.proof.sent_at)))
        stale_gossip
    ensure (evidence.sha256_hex payload == gossip.proof.payload_sha256) invalid_payload_binding

  unfoldable pub verify_gossip_signature : GossipEnvelope → MembershipEnvelope → Verdict
  unfolding verify_signature
  verify_gossip_signature gossip membership =
      verify_signature membership.assertion.subject.public_key_ed25519 gossip.signature.value
        gossip_domain (evidence.proof_bytes gossip.proof)

  unfoldable pub verify_gossip :
      GossipEnvelope → MembershipEnvelope → MembershipPolicy → List ℕ → ℕ → Bool → Verdict
  verify_gossip gossip membership policy payload now replay_seen = do
    verify_membership membership policy gossip.proof.sender_id "peers" now
    validate_gossip_identity gossip membership policy replay_seen
    validate_gossip_freshness_and_payload gossip policy payload now
    verify_gossip_signature gossip membership
