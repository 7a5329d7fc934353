-- ===== src/Routing/Policy.antt =====
-- src/routing_policy.rs, with the policy types of src/types.rs: which nodes may be sent a prompt. `K` stands
-- for the public key of a node and `R` for the fields that the policy does not read. A manifest is the
-- function from a path of keys to the text that serde_json finds there.
use iicp_client_rust.Base.{
  String, Bool, true, false, List, [], ◌∷◌, Option, none, some, if◌then◌else◌,
}

pub data RoutingProfile : Type 0 where
  standard sensitive eu_restricted strict_policy debug_override : RoutingProfile

pub record RoutingPolicy : Type 0 where
  pub profile : RoutingProfile
  pub allowed_regions : List String
  pub require_encryption : Option Bool
  pub require_policy_manifest : Option Bool
  pub require_no_payload_retention : Option Bool
  pub allow_remote_executor : Option Bool
  pub known_operator_only : Option Bool
  pub required_manifest_identity_level : Option String

pub record EffectiveRoutingPolicy : Type 0 where
  pub profile : RoutingProfile
  pub allowed_regions : List String
  pub require_encryption : Bool
  pub require_policy_manifest : Bool
  pub require_no_payload_retention : Bool
  pub allow_remote_executor : Bool
  pub known_operator_only : Bool
  pub required_manifest_identity_level : Option String

abbrev pub Manifest : Type 0
Manifest = List String → Option String

pub record Node (K R : Type 0) : Type 0 where
  pub region : String
  pub cx_public_key : Option K
  pub node_policy_manifest : Option Manifest
  pub rest : R

abbrev pub standard_policy : EffectiveRoutingPolicy
standard_policy = record {
  profile = standard;
  allowed_regions = [];
  require_encryption = true;
  require_policy_manifest = false;
  require_no_payload_retention = false;
  allow_remote_executor = true;
  known_operator_only = false;
  required_manifest_identity_level = none;
}

-- The `match` on the profile.
abbrev pub profile_policy : RoutingProfile → EffectiveRoutingPolicy
profile_policy standard = standard_policy
profile_policy sensitive = record standard_policy {
  profile = sensitive;
  allow_remote_executor = false;
}
profile_policy eu_restricted = record standard_policy {
  profile = eu_restricted;
  allowed_regions = "eu" ∷ "eea" ∷ [];
}
profile_policy strict_policy = record standard_policy {
  profile = strict_policy;
  require_policy_manifest = true;
  require_no_payload_retention = true;
}
profile_policy debug_override = record standard_policy {
  profile = debug_override;
  require_encryption = false;
}

module _ {A : Type 0} where
  -- `if let Some(v) = value { effective = v }`.
  abbrev pub overridden : Option A → A → A
  overridden none old = old
  overridden (some v) old = v

  -- `Option::or`.
  abbrev pub or_option : Option A → Option A → Option A
  or_option none other = other
  or_option (some v) other = some v

  abbrev pub is_some : Option A → Bool
  is_some none = false
  is_some (some v) = true

  abbrev pub is_empty : List A → Bool
  is_empty [] = true
  is_empty (x ∷ xs) = false

unfoldable pub with_overrides : RoutingPolicy → EffectiveRoutingPolicy → EffectiveRoutingPolicy
with_overrides p e = record {
  profile = e.profile;
  allowed_regions = if is_empty p.allowed_regions then e.allowed_regions else p.allowed_regions;
  require_encryption = overridden p.require_encryption e.require_encryption;
  require_policy_manifest = overridden p.require_policy_manifest e.require_policy_manifest;
  require_no_payload_retention =
      overridden p.require_no_payload_retention e.require_no_payload_retention;
  allow_remote_executor = overridden p.allow_remote_executor e.allow_remote_executor;
  known_operator_only = overridden p.known_operator_only e.known_operator_only;
  required_manifest_identity_level =
      or_option p.required_manifest_identity_level e.required_manifest_identity_level;
}

unfoldable pub resolved_policy : Option RoutingPolicy → EffectiveRoutingPolicy
unfolding with_overrides
resolved_policy none = profile_policy standard
resolved_policy (some p) = with_overrides p (profile_policy p.profile)
