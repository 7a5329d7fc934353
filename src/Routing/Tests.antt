-- ===== src/Routing/Tests.antt =====
-- Routing policies at concrete nodes.
use iicp_client_rust.Base.{
  String, ◌==◌, ◌≡◌, refl, true, false, List, [], ◌∷◌, Option, none, some, arith, All,
  if◌then◌else◌,
}
use iicp_client_rust.Routing.Policy.{
  RoutingProfile, standard, eu_restricted, RoutingPolicy, Node, Manifest, is_some, resolved_policy,
  with_overrides,
}
use iicp_client_rust.Routing.Filter.{
  filter_nodes_for_routing_policy, sort_nodes, sort_node, node_rejection_reason, region_allowed,
}
use iicp_client_rust.Routing.Filter.Profiles.{resolved_policy-keyed}

-- A manifest with one level and no other text.
abbrev levelled : String → Manifest
levelled level [] = none
levelled level (k ∷ []) = if k == "manifest_identity_level" then some level else none
levelled level (k ∷ j ∷ ks) = none

abbrev node : String → Option String → Option Manifest → Node String String
node region key manifest = record {
  region = region;
  cx_public_key = key;
  node_policy_manifest = manifest;
  rest = "";
}

abbrev three_nodes : List (Node String String)
three_nodes =
    node "EU-west" (some "k") (some (levelled "known_operator"))
    ∷ node "us" (some "k") none
    ∷ node "eu" none (some (levelled "revoked"))
    ∷ []

abbrev plain : RoutingProfile → RoutingPolicy
plain profile = record {
  profile = profile;
  allowed_regions = [];
  require_encryption = none;
  require_policy_manifest = none;
  require_no_payload_retention = none;
  allow_remote_executor = none;
  known_operator_only = none;
  required_manifest_identity_level = none;
}

european_lem :
    (filter_nodes_for_routing_policy three_nodes
      (resolved_policy (some (plain eu_restricted)))
      false).rejected_reasons
    ≡ "region_not_allowed" ∷ "missing_encryption_key" ∷ []
unfolding filter_nodes_for_routing_policy sort_nodes sort_node node_rejection_reason region_allowed
    resolved_policy with_overrides
european_lem = refl

resolved_policy-keyed_example :
    All
      (λ n. is_some n.cx_public_key ≡ true)
      (filter_nodes_for_routing_policy three_nodes
        (resolved_policy (some (plain standard)))
        false).eligible
resolved_policy-keyed_example =
    resolved_policy-keyed (plain standard) three_nodes (λ h. ground arith) (λ h. ground arith)

abbrev known_only : RoutingPolicy
known_only = record (plain standard) { known_operator_only = some true }
