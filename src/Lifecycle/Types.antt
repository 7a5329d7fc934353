-- ===== src/Lifecycle/Types.antt =====
-- The data of src/service_lifecycle.rs. `V` stands for `serde_json::Value`, the type of an event's
-- detail. Sequences and times are `u64`.
use iicp_client_rust.Base.{ℕ, String, Bool, List, Option, none, some, last}

abbrev pub profile : String
profile = "urn:iicp:profile:service-lifecycle:v1"

pub record LifecycleEvent (V : Type 0) : Type 0 where
  pub task_id : String
  pub sequence : ℕ
  pub state : String
  pub is_final : Bool
  pub observed_at_ms : ℕ
  pub detail : V

pub record LifecycleRecord (V : Type 0) : Type 0 where
  pub task_id : String
  pub idempotency_key : String
  pub request_digest : String
  pub state : String
  pub events : List (LifecycleEvent V)
  pub updated_at_ms : ℕ

pub record LifecycleSnapshot (V : Type 0) : Type 0 where
  pub profile : String
  pub records : List (LifecycleRecord V)

pub data LifecycleError : Type 0 where
  conflict : String → LifecycleError
  unknown_task : LifecycleError
  resume_unavailable : String → ℕ → LifecycleError
  storage : String → LifecycleError

-- `map_or(0, |event| event.sequence)`.
abbrev pub sequence_or_zero : {V : Type 0} → Option (LifecycleEvent V) → ℕ
sequence_or_zero none = 0
sequence_or_zero (some e) = e.sequence

abbrev pub latest_sequence : {V : Type 0} → LifecycleRecord V → ℕ
latest_sequence r = sequence_or_zero (last r.events)
