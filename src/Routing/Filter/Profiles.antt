-- ===== src/Routing/Filter/Profiles.antt =====
-- What the profiles of src/routing_policy.rs promise of every node that is left.
use iicp_client_rust.Base.{
  String, eq_iff, ◌≡◌, ◌≢◌, refl, ap, Bool, true, false, List, [], ◌∷◌, Option, none, some, arith,
  All,
}
use iicp_client_rust.Routing.Policy.{
  sensitive, strict_policy, debug_override, RoutingPolicy, EffectiveRoutingPolicy, Node,
  resolved_policy, is_some,
}
use iicp_client_rust.Routing.Filter.{
  manifest_text, required_level, manifest_signed_verified, declares_no_payload_retention,
  manifest_identity_rejection_reason, level_rejection, manifest_identity_rank,
  node_rejection_reason, filter_nodes_for_routing_policy,
}
use iicp_client_rust.Routing.Filter.Selection.{eligible-All}

encrypts :
    (q : RoutingPolicy)
    → q.profile ≢ debug_override
    → q.require_encryption ≢ some false
    → (resolved_policy (some q)).require_encryption ≡ true
unfolding resolved_policy
encrypts q normal_profile kept = ground arith

strict_retention :
    (q : RoutingPolicy)
    → q.profile ≡ strict_policy
    → q.require_no_payload_retention ≢ some false
    → ((resolved_policy (some q)).require_no_payload_retention ≡ true)
      × ((resolved_policy (some q)).profile ≡ strict_policy)
unfolding resolved_policy
strict_retention q strict kept = rw strict (ground arith)

asks_known :
    (q : RoutingPolicy)
    → q.known_operator_only ≡ some true
    → q.required_manifest_identity_level ≡ none
    → required_level (resolved_policy (some q)) ≡ some "known_operator"
unfolding resolved_policy
asks_known q known no_level = ground arith

stays_home :
    (q : RoutingPolicy)
    → q.profile ≡ sensitive
    → q.allow_remote_executor ≢ some true
    → (resolved_policy (some q)).allow_remote_executor ≡ false
unfolding resolved_policy
stays_home q s closed = ground arith

known_level :
    (level : Option String)
    → level_rejection "known_operator" level ≡ none
    → level ≡ some "known_operator"
unfolding level_rejection manifest_identity_rank
known_level none h = absurd (ground arith)
known_level (some level) h = ap some (ground (arith, eq_iff level "known_operator"))

All-false : {A : Type 0} (xs : List A) → All (λ x. ⊥) xs → xs ≡ []
All-false [] h = refl
All-false (x ∷ xs) h = absurd h.0

module _ {K R : Type 0} where
  keyed :
      (n : Node K R) (p : EffectiveRoutingPolicy)
      → p.require_encryption ≡ true
      → node_rejection_reason n p false ≡ none
      → is_some n.cx_public_key ≡ true
  unfolding node_rejection_reason
  keyed n p e h = ground arith

  signed :
      (n : Node K R) (p : EffectiveRoutingPolicy) (debug : Bool)
      → (p.require_no_payload_retention ≡ true) × (p.profile ≡ strict_policy)
      → node_rejection_reason n p debug ≡ none
      → (manifest_signed_verified n ≡ true) × (declares_no_payload_retention n ≡ true)
  unfolding node_rejection_reason
  signed n p debug e h = ground arith

  known_operators :
      (n : Node K R) (p : EffectiveRoutingPolicy) (debug : Bool)
      → required_level p ≡ some "known_operator"
      → node_rejection_reason n p debug ≡ none
      → manifest_text n.node_policy_manifest ("manifest_identity_level" ∷ [])
        ≡ some "known_operator"
  unfolding node_rejection_reason manifest_identity_rejection_reason
  known_operators n p debug e h =
      known_level (manifest_text n.node_policy_manifest ("manifest_identity_level" ∷ []))
        (ground arith)

  local_only :
      (n : Node K R) (p : EffectiveRoutingPolicy) (debug : Bool)
      → p.allow_remote_executor ≡ false
      → node_rejection_reason n p debug ≢ none
  unfolding node_rejection_reason
  local_only n p debug e h = ground arith

  -- Without plaintext debugging, a policy that does not give up encryption itself and whose profile is
  -- not the debug override leaves only nodes with a public key.
  pub resolved_policy-keyed :
      (q : RoutingPolicy) (nodes : List (Node K R))
      → q.profile ≢ debug_override
      → q.require_encryption ≢ some false
      → All
          (λ n. is_some n.cx_public_key ≡ true)
          (filter_nodes_for_routing_policy nodes (resolved_policy (some q)) false).eligible
  resolved_policy-keyed q nodes normal_profile kept =
      eligible-All _ (resolved_policy (some q)) false nodes
        (λ n h. keyed n (resolved_policy (some q)) (encrypts q normal_profile kept) h)

  -- A strict policy that does not give up retention itself leaves only nodes with a manifest that is
  -- signed and verified and that declares no payload retention.
  pub resolved_policy-strict :
      (q : RoutingPolicy) (nodes : List (Node K R)) (debug : Bool)
      → q.profile ≡ strict_policy
      → q.require_no_payload_retention ≢ some false
      → All
          (λ n. (manifest_signed_verified n ≡ true) × (declares_no_payload_retention n ≡ true))
          (filter_nodes_for_routing_policy nodes (resolved_policy (some q)) debug).eligible
  resolved_policy-strict q nodes debug strict kept =
      eligible-All _ (resolved_policy (some q)) debug nodes
        (λ n h. signed n (resolved_policy (some q)) debug (strict_retention q strict kept) h)

  -- A policy that asks for known operators only, and for no other level, leaves only nodes whose
  -- manifest has the level of a known operator.
  pub resolved_policy-known_operator :
      (q : RoutingPolicy) (nodes : List (Node K R)) (debug : Bool)
      → q.known_operator_only ≡ some true
      → q.required_manifest_identity_level ≡ none
      → All
          (λ n.
            manifest_text n.node_policy_manifest ("manifest_identity_level" ∷ [])
            ≡ some "known_operator")
          (filter_nodes_for_routing_policy nodes (resolved_policy (some q)) debug).eligible
  resolved_policy-known_operator q nodes debug known no_level =
      eligible-All _ (resolved_policy (some q)) debug nodes
        (λ n h. known_operators n (resolved_policy (some q)) debug (asks_known q known no_level) h)

  -- A sensitive policy that does not itself allow remote nodes leaves none.
  pub resolved_policy-sensitive :
      (q : RoutingPolicy) (nodes : List (Node K R)) (debug : Bool)
      → q.profile ≡ sensitive
      → q.allow_remote_executor ≢ some true
      → (filter_nodes_for_routing_policy nodes (resolved_policy (some q)) debug).eligible ≡ []
  resolved_policy-sensitive q nodes debug s closed = All-false _ (
      eligible-All (λ n. ⊥) (resolved_policy (some q)) debug nodes
        (λ n h. local_only n (resolved_policy (some q)) debug (stays_home q s closed) h))
