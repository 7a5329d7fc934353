-- ===== src/Provider/HealthTests.antt =====
-- Snapshots of a node at concrete inputs.
use iicp_client_rust.Base.{◌≡◌, ◌↔◌, refl, false, List, [], ◌∷◌}
use iicp_client_rust.Base.Dict.{get, insert}
use iicp_client_rust.Provider.Health.{
  State, Liveness, Readiness, ReasonCode, SubsystemState, new, mark_running, advance_runtime,
  set_external, snapshot, input_of, classify_input, reasons_of,
}
use iicp_client_rust.Provider.Health.Histories.{
  Report, runs, runtime_advances, external_is, reported, IsLive, IsReady,
}
use iicp_client_rust.Provider.Health.Snapshots.{snapshot-IsLive}

-- A node that has run for a second, and has lost its directory.
abbrev node : State
node =
    set_external (advance_runtime (mark_running (new false 0)) 1000000000) "directory"
      SubsystemState.unavailable

degraded_lem : (snapshot node 2000000000).1.verdict ≡ record {
  liveness = Liveness.live;
  readiness = Readiness.degraded;
  reason_codes = ReasonCode.directory_unavailable ∷ [];
}
unfolding snapshot classify_input reasons_of input_of set_external advance_runtime mark_running new
    get insert
degraded_lem = refl

-- After more than 30 seconds without progress it is not live.
stale_lem : (snapshot node 31001000000).1.verdict ≡ record {
  liveness = Liveness.not_live;
  readiness = Readiness.not_ready;
  reason_codes = ReasonCode.runtime_progress_stale ∷ [];
}
unfolding snapshot classify_input input_of set_external advance_runtime mark_running new
stale_lem = refl

abbrev reports : List Report
reports =
    runs ∷ runtime_advances 1000000000 ∷ external_is "directory" SubsystemState.unavailable ∷ []

snapshot-IsLive_example :
    (((snapshot (reported (new false 0) reports) 2000000000).1.verdict.liveness ≡ Liveness.live)
      ↔ IsLive false 0 reports 2000000000)
    × (((snapshot (reported (new false 0) reports) 2000000000).1.verdict.readiness
          ≡ Readiness.ready)
        ↔ IsReady false 0 reports 2000000000)
snapshot-IsLive_example = snapshot-IsLive false 0 reports 2000000000
