-- ===== src/Provider/Health.antt =====
-- src/runtime_health.rs: the state of a running node, and what a snapshot of it says. An `Instant` is a
-- number of nanoseconds. The time and the process that a snapshot names are left out, as is the hook that
-- injects faults.
pub mod Types
pub mod Verdicts
pub mod Histories
pub mod Snapshots
pub use Types.*
use iicp_client_rust.Base.{
  ℕ, ◌+◌, ◌-◌, ◌/◌, min, String, Bool, true, false, not, ◌&&◌, ◌||◌, List, [], ◌∷◌, ◌++◌, Option,
  none, some, ltb, any, if◌then◌else◌,
}
use iicp_client_rust.Base.Words.{u64_max, wrapping_add, saturating_sub}
use iicp_client_rust.Base.Dict.{get, insert}

abbrev pub is_starting : Lifecycle → Bool
is_starting starting = true
is_starting running = false
is_starting stopping = false

abbrev pub is_stopping : Lifecycle → Bool
is_stopping starting = false
is_stopping running = false
is_stopping stopping = true

abbrev pub is_unavailable : SubsystemState → Bool
is_unavailable healthy = false
is_unavailable degraded = false
is_unavailable recovering = false
is_unavailable unavailable = true
is_unavailable not_applicable = false
is_unavailable unknown = false

abbrev pub is_recovering : SubsystemState → Bool
is_recovering healthy = false
is_recovering degraded = false
is_recovering recovering = true
is_recovering unavailable = false
is_recovering not_applicable = false
is_recovering unknown = false

-- `if b { reasons.push(r) }`.
abbrev pub push_if : Bool → ReasonCode → List ReasonCode → List ReasonCode
push_if true reason reasons = reasons ++ reason ∷ []
push_if false reason reasons = reasons

unfoldable pub reasons_of : ClassificationInput → List ReasonCode
reasons_of i = push_if (is_unavailable i.internet) internet_unavailable (
    push_if (is_unavailable i.dns) dns_unavailable (
      push_if (is_unavailable i.directory) directory_unavailable (
        push_if (is_recovering i.tunnel) tunnel_recovering (
          push_if (is_unavailable i.routing) routing_unavailable (
            push_if (not i.capacity_available) no_capacity
              (push_if (is_unavailable i.provider) provider_unavailable []))))))

-- The reasons for which a node is not ready.
abbrev pub blocks : ReasonCode → Bool
blocks starting = false
blocks stopping = false
blocks runtime_progress_stale = false
blocks supervisor_progress_stale = false
blocks provider_unavailable = true
blocks no_capacity = true
blocks routing_unavailable = true
blocks tunnel_recovering = false
blocks directory_unavailable = false
blocks dns_unavailable = false
blocks internet_unavailable = false
blocks state_unknown = false

abbrev pub readiness_of : List ReasonCode → Readiness
readiness_of [] = ready
readiness_of (reason ∷ reasons) = if any blocks (reason ∷ reasons) then not_ready else degraded

abbrev pub result : Liveness → Readiness → List ReasonCode → ClassificationOutput
result liveness readiness reasons = record {
  liveness = liveness;
  readiness = readiness;
  reason_codes = reasons;
}

unfoldable pub classify_input : ClassificationInput → ClassificationOutput
classify_input i =
    if is_starting i.lifecycle
    then result starting not_ready (starting ∷ [])
    else if ltb i.runtime_stale_after_ms i.runtime_age_ms
    then result not_live not_ready (runtime_progress_stale ∷ [])
    else if i.supervisor_required && ltb i.supervisor_stale_after_ms i.supervisor_age_ms
    then result not_live not_ready (supervisor_progress_stale ∷ [])
    else if is_stopping i.lifecycle
    then result live not_ready (stopping ∷ [])
    else result live (readiness_of (reasons_of i)) (reasons_of i)

pub record State : Type 0 where
  pub lifecycle : Lifecycle
  pub runtime_sequence : ℕ
  pub supervisor_sequence : ℕ
  pub last_runtime : ℕ
  pub last_supervisor : ℕ
  pub supervisor_required : Bool
  pub capacity_available : Bool
  pub subsystems : List (String × SubsystemState)
  pub external : List (String × SubsystemState)
  pub snapshot_sequence : ℕ

unfoldable pub new : Bool → ℕ → State
new supervisor_required now = record {
  lifecycle = starting;
  runtime_sequence = 0;
  supervisor_sequence = 0;
  last_runtime = now;
  last_supervisor = now;
  supervisor_required = supervisor_required;
  capacity_available = false;
  subsystems = ("provider", unknown) ∷ ("routing", unknown) ∷ ("tunnel", unknown) ∷ [];
  external = ("directory", unknown) ∷ ("dns", unknown) ∷ ("internet", unknown) ∷ [];
  snapshot_sequence = 0;
}

unfoldable pub mark_running : State → State
mark_running s = record s {
  lifecycle = running;
  capacity_available = true;
  subsystems = insert "routing" healthy (insert "provider" healthy s.subsystems);
}

unfoldable pub mark_stopping : State → State
mark_stopping s = record s { lifecycle = stopping }

unfoldable pub advance_runtime : State → ℕ → State
advance_runtime s now = record s {
  runtime_sequence = wrapping_add s.runtime_sequence 1;
  last_runtime = now;
}

unfoldable pub advance_supervisor : State → ℕ → State
advance_supervisor s now = record s {
  supervisor_sequence = wrapping_add s.supervisor_sequence 1;
  last_supervisor = now;
}

unfoldable pub set_supervisor_required : State → Bool → State
set_supervisor_required s required = record s { supervisor_required = required }

unfoldable pub set_subsystem : State → String → SubsystemState → State
set_subsystem s name value = record s { subsystems = insert name value s.subsystems }

unfoldable pub set_external : State → String → SubsystemState → State
set_external s name value = record s { external = insert name value s.external }

abbrev pub or_unknown : Option SubsystemState → SubsystemState
or_unknown none = unknown
or_unknown (some state) = state

-- The milliseconds of `now.duration_since(then)`.
abbrev pub age_ms : ℕ → ℕ → ℕ
age_ms now last = min (saturating_sub now last / 1000000) u64_max

unfoldable pub input_of : State → ℕ → ClassificationInput
input_of s now = record {
  lifecycle = s.lifecycle;
  runtime_age_ms = age_ms now s.last_runtime;
  runtime_stale_after_ms = runtime_stale_after;
  supervisor_required = s.supervisor_required;
  supervisor_age_ms = age_ms now s.last_supervisor;
  supervisor_stale_after_ms = supervisor_stale_after;
  provider = or_unknown (get "provider" s.subsystems);
  capacity_available = s.capacity_available;
  routing = or_unknown (get "routing" s.subsystems);
  directory = or_unknown (get "directory" s.external);
  dns = or_unknown (get "dns" s.external);
  internet = or_unknown (get "internet" s.external);
  tunnel = or_unknown (get "tunnel" s.subsystems);
}

pub record HealthSnapshot : Type 0 where
  pub sequence : ℕ
  pub lifecycle : Lifecycle
  pub verdict : ClassificationOutput
  pub runtime_sequence : ℕ
  pub runtime_age_ms : ℕ
  pub supervisor_sequence : ℕ
  pub supervisor_age_ms : ℕ
  pub supervisor_required : Bool
  pub subsystems : List (String × SubsystemState)
  pub external_connectivity : List (String × SubsystemState)

unfoldable pub snapshot : State → ℕ → State × HealthSnapshot
snapshot s now =
    let next = record s { snapshot_sequence = wrapping_add s.snapshot_sequence 1 } in
    (
      next,
      record {
        sequence = next.snapshot_sequence;
        lifecycle = next.lifecycle;
        verdict = classify_input (input_of next now);
        runtime_sequence = next.runtime_sequence;
        runtime_age_ms = age_ms now next.last_runtime;
        supervisor_sequence = next.supervisor_sequence;
        supervisor_age_ms = age_ms now next.last_supervisor;
        supervisor_required = next.supervisor_required;
        subsystems = next.subsystems;
        external_connectivity = next.external;
      },
    )
