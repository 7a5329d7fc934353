-- ===== src/Routing/Filter.antt =====
-- The filter of src/routing_policy.rs: the reasons against a node, and the decision on the nodes that were
-- discovered.
pub mod Selection
pub mod Profiles
use iicp_client_rust.Base.{
  ℕ, suc, String, ◌==◌, Bool, true, false, not, ◌&&◌, ◌||◌, List, [], ◌∷◌, ◌++◌, Option, none, some,
  any, one_of, if◌then◌else◌,
}
use iicp_client_rust.Base.Words.{ℤ, pos, negsuc, gtb}
use iicp_client_rust.Base.Texts.{
  codes, trim_start, trim_end, to_ascii_lowercase, starts_with, codes_eq,
}
use iicp_client_rust.Routing.Policy.{
  RoutingProfile, standard, sensitive, eu_restricted, strict_policy, debug_override,
  EffectiveRoutingPolicy, Manifest, Node, is_some, is_empty,
}

abbrev pub manifest_text : Option Manifest → List String → Option String
manifest_text none path = none
manifest_text (some m) path = m path

abbrev pub is_text : Option String → String → Bool
is_text none s = false
is_text (some t) s = t == s

-- -1 is a level that is not known, or was taken back.
unfoldable pub manifest_identity_rank : String → ℤ
manifest_identity_rank level =
    if level == "self_attested"
    then pos 0
    else if level == "signed_valid"
    then pos 1
    else if level == "operator_bound"
    then pos 2
    else if level == "known_operator"
    then pos 3
    else negsuc 0

abbrev pub known_requirement : String → String
known_requirement level =
    if one_of ("signed_valid" ∷ "operator_bound" ∷ "known_operator" ∷ []) level
    then level
    else "known_operator"

unfoldable pub level_rejection : String → Option String → Option String
unfolding manifest_identity_rank
level_rejection required none = some "missing_manifest_identity"
level_rejection required (some level) =
    if level == "revoked" || level == "rotated"
    then some "policy_manifest_revoked_or_rotated"
    else if gtb (manifest_identity_rank required) (manifest_identity_rank level)
    then some "manifest_identity_level_too_low"
    else none

-- One allowed region, both texts without the spaces around them and in lower case.
abbrev pub region_matches : List ℕ → List ℕ → Bool
region_matches value item =
    if is_empty item
    then false
    else codes_eq value item
      || starts_with value (item ++ b'-' ∷ [])
      || (codes_eq item (codes "eea") && starts_with value (codes "eu-"))

abbrev pub normal : String → List ℕ
normal s = to_ascii_lowercase (trim_end (trim_start (codes s)))

unfoldable pub region_allowed : String → List String → Bool
region_allowed region allowed = any (λ raw. region_matches (normal region) (normal raw)) allowed

abbrev pub required_level : EffectiveRoutingPolicy → Option String
required_level p = elim p.required_manifest_identity_level [
  | some level ↦ some level
  | none ↦ if p.known_operator_only then some "known_operator" else none
]

abbrev pub is_strict : RoutingProfile → Bool
is_strict strict_policy = true
is_strict _ = false

module _ {K R : Type 0} where
  unfoldable pub manifest_signed_verified : Node K R → Bool
  manifest_signed_verified n =
      is_text (manifest_text n.node_policy_manifest ("verification" ∷ "status" ∷ [])) "signed_valid"
      || is_text (manifest_text n.node_policy_manifest ("evidence" ∷ [])) "signed_verified"

  unfoldable pub declares_no_payload_retention : Node K R → Bool
  declares_no_payload_retention n =
      is_text (manifest_text n.node_policy_manifest ("retention" ∷ "task_payload" ∷ [])) "none"

  unfoldable pub manifest_identity_rejection_reason : Node K R → String → Option String
  unfolding level_rejection
  manifest_identity_rejection_reason n required =
      level_rejection (known_requirement required)
        (manifest_text n.node_policy_manifest ("manifest_identity_level" ∷ []))

  -- The reason for the identity level that the policy requires, if it requires one.
  abbrev pub identity_rejection : Node K R → Option String → Option String
  identity_rejection n none = none
  identity_rejection n (some required) = manifest_identity_rejection_reason n required

  unfoldable pub node_rejection_reason : Node K R → EffectiveRoutingPolicy → Bool → Option String
  node_rejection_reason n p allow_plaintext_debug =
      if not p.allow_remote_executor
      then some "remote_executor_disabled"
      else if not (is_empty p.allowed_regions) && not (region_allowed n.region p.allowed_regions)
      then some "region_not_allowed"
      else if p.require_encryption && not (is_some n.cx_public_key) && not allow_plaintext_debug
      then some "missing_encryption_key"
      else if p.require_policy_manifest && not (is_some n.node_policy_manifest)
      then some "missing_policy_manifest"
      else if is_strict p.profile && not (manifest_signed_verified n)
      then some "policy_manifest_not_signed"
      else if p.require_no_payload_retention && not (declares_no_payload_retention n)
      then some "payload_retention_not_none"
      else identity_rejection n (required_level p)

pub record RoutingPolicyDecision (K R : Type 0) : Type 0 where
  pub eligible : List (Node K R)
  pub rejected_reasons : List String
  pub skipped_keyless : ℕ

module _ {K R : Type 0} where
  -- What one node adds to the decision. The count is at most the number of nodes, so it does not wrap.
  unfoldable pub sort_node :
      Node K R → Option String → RoutingPolicyDecision K R → RoutingPolicyDecision K R
  sort_node n (some reason) d = record d {
    rejected_reasons = d.rejected_reasons ++ reason ∷ [];
    skipped_keyless =
        if reason == "missing_encryption_key" then suc d.skipped_keyless else d.skipped_keyless;
  }
  sort_node n none d = record d { eligible = d.eligible ++ n ∷ [] }

  -- The `for` loop.
  unfoldable pub sort_nodes :
      List (Node K R)
      → EffectiveRoutingPolicy
      → Bool
      → RoutingPolicyDecision K R
      → RoutingPolicyDecision K R
  unfolding sort_node
  sort_nodes [] p debug d = d
  sort_nodes (n ∷ nodes) p debug d =
      sort_nodes nodes p debug (sort_node n (node_rejection_reason n p debug) d)

  unfoldable pub filter_nodes_for_routing_policy :
      List (Node K R) → EffectiveRoutingPolicy → Bool → RoutingPolicyDecision K R
  filter_nodes_for_routing_policy nodes p allow_plaintext_debug =
      sort_nodes nodes p allow_plaintext_debug
        (record { eligible = []; rejected_reasons = []; skipped_keyless = 0 })
