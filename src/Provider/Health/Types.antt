-- ===== src/Provider/Health/Types.antt =====
-- The data of src/runtime_health.rs.
use iicp_client_rust.Base.{ℕ, Bool, List}

pub data Lifecycle : Type 0 where
  starting : Lifecycle
  running : Lifecycle
  stopping : Lifecycle

pub data Liveness : Type 0 where
  starting : Liveness
  live : Liveness
  not_live : Liveness
  indeterminate : Liveness

pub data Readiness : Type 0 where
  ready : Readiness
  degraded : Readiness
  not_ready : Readiness

pub data SubsystemState : Type 0 where
  healthy : SubsystemState
  degraded : SubsystemState
  recovering : SubsystemState
  unavailable : SubsystemState
  not_applicable : SubsystemState
  unknown : SubsystemState

pub data ReasonCode : Type 0 where
  starting : ReasonCode
  stopping : ReasonCode
  runtime_progress_stale : ReasonCode
  supervisor_progress_stale : ReasonCode
  provider_unavailable : ReasonCode
  no_capacity : ReasonCode
  routing_unavailable : ReasonCode
  tunnel_recovering : ReasonCode
  directory_unavailable : ReasonCode
  dns_unavailable : ReasonCode
  internet_unavailable : ReasonCode
  state_unknown : ReasonCode

pub record ClassificationInput : Type 0 where
  pub lifecycle : Lifecycle
  pub runtime_age_ms : ℕ
  pub runtime_stale_after_ms : ℕ
  pub supervisor_required : Bool
  pub supervisor_age_ms : ℕ
  pub supervisor_stale_after_ms : ℕ
  pub provider : SubsystemState
  pub capacity_available : Bool
  pub routing : SubsystemState
  pub directory : SubsystemState
  pub dns : SubsystemState
  pub internet : SubsystemState
  pub tunnel : SubsystemState

pub record ClassificationOutput : Type 0 where
  pub liveness : Liveness
  pub readiness : Readiness
  pub reason_codes : List ReasonCode

-- 30 and 120 seconds.
abbrev pub runtime_stale_after : ℕ
runtime_stale_after = 30000

abbrev pub supervisor_stale_after : ℕ
supervisor_stale_after = 120000
