-- ===== src/Provider/Health/Histories.antt =====
-- What a snapshot of src/runtime_health.rs says of a node, by what was reported to it since it started.
use iicp_client_rust.Base.{
  ℕ, ◌+◌, ◌<◌, String, ◌==◌, ◌||◌, eq_iff, ◌≡◌, ◌≢◌, refl, ap, ◌∙◌, ◌⊎◌, Bool, true, false, List,
  [], ◌∷◌, Option, none, some, arith, if◌then◌else◌,
}
use iicp_client_rust.Base.Dict.{get, insert, get-insert}
use iicp_client_rust.Provider.Health.{
  Lifecycle, SubsystemState, State, mark_running, mark_stopping, advance_runtime,
  advance_supervisor, set_supervisor_required, set_subsystem, set_external, or_unknown, snapshot,
}

-- A call on the health of a node, with the time where the code reads a clock.
pub data Report : Type 0 where
  runs stops : Report
  runtime_advances : ℕ → Report
  supervisor_advances : ℕ → Report
  supervisor_is_required : Bool → Report
  subsystem_is : String → SubsystemState → Report
  external_is : String → SubsystemState → Report
  snapshot_at : ℕ → Report

abbrev pub report : State → Report → State
report s runs = mark_running s
report s stops = mark_stopping s
report s (runtime_advances now) = advance_runtime s now
report s (supervisor_advances now) = advance_supervisor s now
report s (supervisor_is_required required) = set_supervisor_required s required
report s (subsystem_is name state) = set_subsystem s name state
report s (external_is name state) = set_external s name state
report s (snapshot_at now) = (snapshot s now).0

unfoldable pub reported : State → List Report → State
reported s [] = s
reported s (c ∷ reports) = reported (report s c) reports

abbrev pub or_else : {A : Type 0} → Option A → A → A
or_else none a = a
or_else (some b) a = b

-- What the last report that says anything of a thing says of it, or how it was.
abbrev pub latest : {A : Type 0} → (Report → Option A) → A → List Report → A
latest says a [] = a
latest says a (c ∷ reports) = latest says (or_else (says c) a) reports

abbrev pub lifecycle_in : Report → Option Lifecycle
lifecycle_in runs = some Lifecycle.running
lifecycle_in stops = some Lifecycle.stopping
lifecycle_in _ = none

abbrev pub runtime_in : Report → Option ℕ
runtime_in (runtime_advances now) = some now
runtime_in _ = none

abbrev pub supervisor_in : Report → Option ℕ
supervisor_in (supervisor_advances now) = some now
supervisor_in _ = none

abbrev pub required_in : Report → Option Bool
required_in (supervisor_is_required required) = some required
required_in _ = none

-- A node has capacity once it runs.
abbrev pub capacity_in : Report → Option Bool
capacity_in runs = some true
capacity_in _ = none

-- A node that runs has a provider and routing.
abbrev pub subsystem_in : String → Report → Option SubsystemState
subsystem_in name runs =
    if name == "provider" || name == "routing" then some SubsystemState.healthy else none
subsystem_in name (subsystem_is other state) = if other == name then some state else none
subsystem_in name _ = none

abbrev pub external_in : String → Report → Option SubsystemState
external_in name (external_is other state) = if other == name then some state else none
external_in name _ = none

abbrev pub subsystem_of : String → List Report → SubsystemState
subsystem_of name = latest (subsystem_in name) SubsystemState.unknown

abbrev pub external_of : String → List Report → SubsystemState
external_of name = latest (external_in name) SubsystemState.unknown

-- The node has started, its runtime made progress less than 30.001 seconds ago, and its supervisor, where it is
-- required, less than 120.001 seconds ago. Times are in nanoseconds.
pub record IsLive (required : Bool) (start : ℕ) (reports : List Report) (now : ℕ) : Type 0 where
  pub started : latest lifecycle_in Lifecycle.starting reports ≢ Lifecycle.starting
  pub runtime : now < latest runtime_in start reports + 30_001_000_000
  pub supervisor :
      (latest required_in required reports ≡ false)
      ⊎ (now < latest supervisor_in start reports + 120_001_000_000)

-- The node is live and not stopping, has capacity, and lacks nothing.
pub record IsReady (required : Bool) (start : ℕ) (reports : List Report) (now : ℕ) : Type 0 where
  pub is_live : IsLive required start reports now
  pub staying : latest lifecycle_in Lifecycle.starting reports ≢ Lifecycle.stopping
  pub capacity : latest capacity_in false reports ≡ true
  pub provider : subsystem_of "provider" reports ≢ SubsystemState.unavailable
  pub routing : subsystem_of "routing" reports ≢ SubsystemState.unavailable
  pub tunnel : subsystem_of "tunnel" reports ≢ SubsystemState.recovering
  pub directory : external_of "directory" reports ≢ SubsystemState.unavailable
  pub dns : external_of "dns" reports ≢ SubsystemState.unavailable
  pub internet : external_of "internet" reports ≢ SubsystemState.unavailable

-- A field that each report leaves, or sets to what it says, is what was said last.
pub reported-latest :
    {A : Type 0} (field : State → A) (says : Report → Option A)
    → ((s : State) (c : Report) → field (report s c) ≡ or_else (says c) (field s))
    → (s : State) (reports : List Report)
    → field (reported s reports) ≡ latest says (field s) reports
unfolding reported
reported-latest field says step s [] = refl
reported-latest field says step s (c ∷ reports) =
    reported-latest field says step (report s c) reports
    ∙ ap (λ a. latest says a reports) (step s c)

abbrev pub subsystem : String → State → SubsystemState
subsystem name s = or_unknown (get name s.subsystems)

abbrev pub external : String → State → SubsystemState
external name s = or_unknown (get name s.external)

pub lifecycle_step :
    (s : State) (c : Report) → (report s c).lifecycle ≡ or_else (lifecycle_in c) s.lifecycle
unfolding mark_running mark_stopping advance_runtime advance_supervisor set_supervisor_required
    set_subsystem set_external snapshot
lifecycle_step s runs = refl
lifecycle_step s _ = refl

pub runtime_step :
    (s : State) (c : Report) → (report s c).last_runtime ≡ or_else (runtime_in c) s.last_runtime
unfolding mark_running mark_stopping advance_runtime advance_supervisor set_supervisor_required
    set_subsystem set_external snapshot
runtime_step s runs = refl
runtime_step s _ = refl

pub supervisor_step :
    (s : State) (c : Report)
    → (report s c).last_supervisor ≡ or_else (supervisor_in c) s.last_supervisor
unfolding mark_running mark_stopping advance_runtime advance_supervisor set_supervisor_required
    set_subsystem set_external snapshot
supervisor_step s runs = refl
supervisor_step s _ = refl

pub required_step :
    (s : State) (c : Report)
    → (report s c).supervisor_required ≡ or_else (required_in c) s.supervisor_required
unfolding mark_running mark_stopping advance_runtime advance_supervisor set_supervisor_required
    set_subsystem set_external snapshot
required_step s runs = refl
required_step s _ = refl

pub capacity_step :
    (s : State) (c : Report)
    → (report s c).capacity_available ≡ or_else (capacity_in c) s.capacity_available
unfolding mark_running mark_stopping advance_runtime advance_supervisor set_supervisor_required
    set_subsystem set_external snapshot
capacity_step s runs = refl
capacity_step s _ = refl

pub subsystem_step :
    (name : String) (s : State) (c : Report)
    → subsystem name (report s c) ≡ or_else (subsystem_in name c) (subsystem name s)
unfolding mark_running mark_stopping advance_runtime advance_supervisor set_supervisor_required
    set_subsystem set_external snapshot
subsystem_step name s runs = ground (
  arith,
  get-insert "routing" name SubsystemState.healthy
      (insert "provider" SubsystemState.healthy s.subsystems),
  get-insert "provider" name SubsystemState.healthy s.subsystems,
  eq_iff "routing" name,
  eq_iff name "routing",
  eq_iff "provider" name,
  eq_iff name "provider",
)
subsystem_step name s (subsystem_is other state) =
    ground (arith, get-insert other name state s.subsystems)
subsystem_step name s _ = refl

pub external_step :
    (name : String) (s : State) (c : Report)
    → external name (report s c) ≡ or_else (external_in name c) (external name s)
unfolding mark_running mark_stopping advance_runtime advance_supervisor set_supervisor_required
    set_subsystem set_external snapshot
external_step name s (external_is other state) =
    ground (arith, get-insert other name state s.external)
external_step name s _ = refl
