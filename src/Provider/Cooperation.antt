-- ===== src/Provider/Cooperation.antt =====
-- `CooperativeInferencePolicy` of src/cip_policy.rs. Its slots are taken by the loop of Concurrency, with
-- `max_concurrent_remote` for the maximum.
pub mod Intents
use iicp_client_rust.Base.{
  ℕ, String, min, max, Bool, true, false, not, ◌&&◌, ◌||◌, List, [], ◌∷◌, Option, none, some, eqb,
  if◌then◌else◌,
}
use iicp_client_rust.Base.Texts.{codes, codes_eq}

pub record CooperativeInferencePolicyOptions : Type 0 where
  pub enabled : Bool
  pub allow_coordinator : Bool
  pub allow_worker : Bool
  pub max_replicas : ℕ
  pub max_worker_timeout_ms : ℕ
  pub max_concurrent_remote : ℕ
  pub allow_tool_execution : Bool

pub record CooperativeInferencePolicy : Type 0 where
  pub enabled : Bool
  pub allow_coordinator : Bool
  pub allow_worker : Bool
  pub max_replicas : ℕ
  pub max_worker_timeout_ms : ℕ
  pub max_concurrent_remote : ℕ
  pub allow_tool_execution : Bool
  pub in_flight : ℕ

abbrev pub default_options : CooperativeInferencePolicyOptions
default_options = record {
  enabled = false;
  allow_coordinator = false;
  allow_worker = false;
  max_replicas = 3;
  max_worker_timeout_ms = 30000;
  max_concurrent_remote = 2;
  allow_tool_execution = false;
}

unfoldable pub new : CooperativeInferencePolicyOptions → CooperativeInferencePolicy
new opts = record {
  enabled = opts.enabled;
  allow_coordinator = opts.allow_coordinator;
  allow_worker = opts.allow_worker;
  max_replicas = max opts.max_replicas 1;
  max_worker_timeout_ms = min (max opts.max_worker_timeout_ms 1) 60000;
  max_concurrent_remote = max opts.max_concurrent_remote 1;
  allow_tool_execution = opts.allow_tool_execution;
  in_flight = 0;
}

-- The text up to the next colon, and what follows that colon.
unfoldable pub segment : List ℕ → List ℕ
segment [] = []
segment (c ∷ cs) = let rest = segment cs in if eqb c b':' then [] else c ∷ rest

unfoldable pub after_colon : List ℕ → List ℕ
after_colon [] = []
after_colon (c ∷ cs) = let rest = after_colon cs in if eqb c b':' then cs else rest

-- `intent.split(':').nth(3).unwrap_or("")`.
unfoldable pub domain_of : List ℕ → List ℕ
unfolding segment after_colon
domain_of intent = segment (after_colon (after_colon (after_colon intent)))

abbrev pub permits_domain : CooperativeInferencePolicy → List ℕ → Bool
permits_domain p domain = p.allow_tool_execution || not (codes_eq domain (codes "tool"))

-- The test on the code points of an intent.
unfoldable pub permits_codes : CooperativeInferencePolicy → List ℕ → Bool
unfolding domain_of
permits_codes p intent = permits_domain p (domain_of intent)

unfoldable pub permits_intent : CooperativeInferencePolicy → String → Bool
permits_intent p intent = permits_codes p (codes intent)

unfoldable pub check_coordinator : CooperativeInferencePolicy → Bool
check_coordinator p = p.enabled && p.allow_coordinator

unfoldable pub check_worker : CooperativeInferencePolicy → Bool
check_worker p = p.enabled && p.allow_worker

-- The two flags of the block that is registered.
unfoldable pub as_register_policy_block : CooperativeInferencePolicy → Option (Bool × Bool)
as_register_policy_block p =
    if not p.enabled then none else some (p.allow_worker, p.allow_tool_execution)
