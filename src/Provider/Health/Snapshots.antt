-- ===== src/Provider/Health/Snapshots.antt =====
-- When a snapshot of src/runtime_health.rs says that a node is live, and that it is ready.
use iicp_client_rust.Base.{
  ℕ, ◌+◌, ◌<◌, ◌≤◌, String, ◌≡◌, ◌≢◌, refl, sym, subst, ap, ◌∙◌, ◌↔◌, inl, inr, Bool, false, List,
  arith,
}
use iicp_client_rust.Base.Dict.{get}
use iicp_client_rust.Provider.Health.{
  Lifecycle, Liveness, Readiness, SubsystemState, State, new, age_ms, is_starting, is_stopping,
  is_unavailable, is_recovering, input_of, snapshot,
}
use iicp_client_rust.Provider.Health.Verdicts.{
  IsLiveInput, IsReadyInput, classify_input-IsLiveInput, IsLiveInput-classify_input,
  classify_input-IsReadyInput, IsReadyInput-classify_input,
}
use iicp_client_rust.Provider.Health.Histories.{
  Report, reported, reported-latest, latest, lifecycle_in, runtime_in, supervisor_in, required_in,
  capacity_in, subsystem_in, external_in, subsystem_of, external_of, subsystem, external, IsLive,
  IsReady, lifecycle_step, runtime_step, supervisor_step, required_step, capacity_step,
  subsystem_step, external_step,
}

runtime_age : (now last : ℕ) → (age_ms now last ≤ 30000) ↔ (now < last + 30_001_000_000)
runtime_age now last = (λ h. omega arith, λ h. omega arith)

supervisor_age : (now last : ℕ) → (age_ms now last ≤ 120000) ↔ (now < last + 120_001_000_000)
supervisor_age now last = (λ h. omega arith, λ h. omega arith)

not_starting : (l : Lifecycle) → (is_starting l ≡ false) ↔ (l ≢ Lifecycle.starting)
not_starting l = (λ h e. ground arith, λ h. ground arith)

not_stopping : (l : Lifecycle) → (is_stopping l ≡ false) ↔ (l ≢ Lifecycle.stopping)
not_stopping l = (λ h e. ground arith, λ h. ground arith)

not_unavailable :
    (x : SubsystemState) → (is_unavailable x ≡ false) ↔ (x ≢ SubsystemState.unavailable)
not_unavailable x = (λ h e. ground arith, λ h. ground arith)

not_recovering : (x : SubsystemState) → (is_recovering x ≡ false) ↔ (x ≢ SubsystemState.recovering)
not_recovering x = (λ h e. ground arith, λ h. ground arith)

-- A predicate of a value, at what equals it.
moved {ℓ κ} :
    {A : Type ℓ} (P : A → Type κ) {Q : A → Type κ} {a b : A}
    → ((x : A) → P x ↔ Q x)
    → a ≡ b
    → P a ↔ Q b
moved P {Q} {a} {b} same e = (λ h. subst Q e ((same a).0 h), λ h. (same a).1 (subst Q (sym e) h))

module _ (required : Bool) (start : ℕ) (reports : List Report) (now : ℕ) where
  abbrev node : State
  node = reported (new required start) reports

  lifecycle_lem : node.lifecycle ≡ latest lifecycle_in Lifecycle.starting reports
  unfolding new
  lifecycle_lem = reported-latest (λ s. s.lifecycle) lifecycle_in lifecycle_step _ reports

  runtime_lem : node.last_runtime ≡ latest runtime_in start reports
  unfolding new
  runtime_lem = reported-latest (λ s. s.last_runtime) runtime_in runtime_step _ reports

  supervisor_lem : node.last_supervisor ≡ latest supervisor_in start reports
  unfolding new
  supervisor_lem = reported-latest (λ s. s.last_supervisor) supervisor_in supervisor_step _ reports

  required_lem : node.supervisor_required ≡ latest required_in required reports
  unfolding new
  required_lem = reported-latest (λ s. s.supervisor_required) required_in required_step _ reports

  capacity_lem : node.capacity_available ≡ latest capacity_in false reports
  unfolding new
  capacity_lem = reported-latest (λ s. s.capacity_available) capacity_in capacity_step _ reports

  subsystem_lem :
      (name : String)
      → subsystem name (new required start) ≡ SubsystemState.unknown
      → subsystem name node ≡ subsystem_of name reports
  subsystem_lem name unknown =
      reported-latest (subsystem name) (subsystem_in name) (subsystem_step name) _ reports
      ∙ ap (λ x. latest (subsystem_in name) x reports) unknown

  external_lem :
      (name : String)
      → external name (new required start) ≡ SubsystemState.unknown
      → external name node ≡ external_of name reports
  external_lem name unknown =
      reported-latest (external name) (external_in name) (external_step name) _ reports
      ∙ ap (λ x. latest (external_in name) x reports) unknown

  started :
      (is_starting node.lifecycle ≡ false)
      ↔ (latest lifecycle_in Lifecycle.starting reports ≢ Lifecycle.starting)
  started = moved (λ l. is_starting l ≡ false) not_starting lifecycle_lem

  staying :
      (is_stopping node.lifecycle ≡ false)
      ↔ (latest lifecycle_in Lifecycle.starting reports ≢ Lifecycle.stopping)
  staying = moved (λ l. is_stopping l ≡ false) not_stopping lifecycle_lem

  runtime :
      (age_ms now node.last_runtime ≤ 30000)
      ↔ (now < latest runtime_in start reports + 30_001_000_000)
  runtime = moved (λ t. age_ms now t ≤ 30000) (runtime_age now) runtime_lem

  supervisor :
      (age_ms now node.last_supervisor ≤ 120000)
      ↔ (now < latest supervisor_in start reports + 120_001_000_000)
  supervisor = moved (λ t. age_ms now t ≤ 120000) (supervisor_age now) supervisor_lem

  available :
      (name : String)
      → subsystem name (new required start) ≡ SubsystemState.unknown
      → (is_unavailable (subsystem name node) ≡ false)
        ↔ (subsystem_of name reports ≢ SubsystemState.unavailable)
  available name unknown =
      moved (λ x. is_unavailable x ≡ false) not_unavailable (subsystem_lem name unknown)

  reachable :
      (name : String)
      → external name (new required start) ≡ SubsystemState.unknown
      → (is_unavailable (external name node) ≡ false)
        ↔ (external_of name reports ≢ SubsystemState.unavailable)
  reachable name unknown =
      moved (λ x. is_unavailable x ≡ false) not_unavailable (external_lem name unknown)

  IsLive-input : IsLive required start reports now → IsLiveInput (input_of node now)
  unfolding input_of
  IsLive-input v = record {
    started = started.1 v.started;
    runtime = runtime.1 v.runtime;
    supervisor = elim v.supervisor [
      | inl free ↦ inl (required_lem ∙ free)
      | inr lately ↦ inr (supervisor.1 lately)
    ];
  }

  input-IsLive : IsLiveInput (input_of node now) → IsLive required start reports now
  unfolding input_of
  input-IsLive v = record {
    started = started.0 v.started;
    runtime = runtime.0 v.runtime;
    supervisor = elim v.supervisor [
      | inl free ↦ inl (sym required_lem ∙ free)
      | inr lately ↦ inr (supervisor.0 lately)
    ];
  }

  IsReady-input : IsReady required start reports now → IsReadyInput (input_of node now)
  unfolding input_of new get
  IsReady-input v = record {
    is_live = IsLive-input v.is_live;
    staying = staying.1 v.staying;
    provider = (available "provider" refl).1 v.provider;
    capacity = capacity_lem ∙ v.capacity;
    routing = (available "routing" refl).1 v.routing;
    tunnel =
        (moved (λ x. is_recovering x ≡ false) not_recovering (subsystem_lem "tunnel" refl)).1
          v.tunnel;
    directory = (reachable "directory" refl).1 v.directory;
    dns = (reachable "dns" refl).1 v.dns;
    internet = (reachable "internet" refl).1 v.internet;
  }

  input-IsReady : IsReadyInput (input_of node now) → IsReady required start reports now
  unfolding input_of new get
  input-IsReady v = record {
    is_live = input-IsLive v.is_live;
    staying = staying.0 v.staying;
    capacity = sym capacity_lem ∙ v.capacity;
    provider = (available "provider" refl).0 v.provider;
    routing = (available "routing" refl).0 v.routing;
    tunnel =
        (moved (λ x. is_recovering x ≡ false) not_recovering (subsystem_lem "tunnel" refl)).0
          v.tunnel;
    directory = (reachable "directory" refl).0 v.directory;
    dns = (reachable "dns" refl).0 v.dns;
    internet = (reachable "internet" refl).0 v.internet;
  }

  -- A snapshot of a new node after any reports says that it is live exactly when it was marked running or
  -- stopping, its runtime advanced less than 30.001 seconds ago and its supervisor, if the last word is that it
  -- is required, less than 120.001 seconds ago; a node that never advanced counts from its start. It says that
  -- the node is ready exactly when it is also not stopping, was marked running, and the last report on each of
  -- its provider, routing, directory, DNS and internet is not that it is unavailable, and on its tunnel not that
  -- it is recovering; to be marked running counts as a report that provider and routing are healthy.
  pub snapshot-IsLive :
      (((snapshot (reported (new required start) reports) now).1.verdict.liveness ≡ Liveness.live)
        ↔ IsLive required start reports now)
      × (((snapshot (reported (new required start) reports) now).1.verdict.readiness
            ≡ Readiness.ready)
          ↔ IsReady required start reports now)
  unfolding snapshot input_of
  snapshot-IsLive =
      let i = input_of node now in
      (
        (
          λ h. input-IsLive (classify_input-IsLiveInput i h),
          λ v. IsLiveInput-classify_input i (IsLive-input v),
        ),
        (
          λ h. input-IsReady (classify_input-IsReadyInput i h),
          λ v. IsReadyInput-classify_input i (IsReady-input v),
        ),
      )
