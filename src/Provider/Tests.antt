-- ===== src/Provider/Tests.antt =====
-- The gates of a provider at concrete inputs.
use iicp_client_rust.Base.{ℕ, ◌≡◌, refl, true, false, List, [], ◌∷◌, arith, eq_iff}
use iicp_client_rust.Base.Texts.{codes}
use iicp_client_rust.Provider.Cooperation.{
  CooperativeInferencePolicy, permits_codes, permits_intent,
}
use iicp_client_rust.Provider.Cooperation.Intents.{IsSegment}
use iicp_client_rust.Provider.Concurrency.{
  ready, loaded, holding, refused, System, turn_at, step, run, holders,
}
use iicp_client_rust.Provider.Concurrency.Slots.{IsCounted, run-IsCounted}
use iicp_client_rust.Provider.Concurrency.Progress.{leaves, changes, turns_of, acquire_ends}
use iicp_client_rust.Base.Dict.{get, insert}
use iicp_client_rust.Provider.Idempotency.{IdempotencyGuard, check_and_register}
use iicp_client_rust.Provider.Idempotency.Duplicates.{check_and_register_again}
use iicp_client_rust.Provider.Idempotency.Duplicates
use iicp_client_rust.Provider.Recovery.{directory_absent, reregister, absent, classify}

abbrev one_slot : System
one_slot = record { max_concurrent = 1; active = 0; threads = ready ∷ ready ∷ [] }

-- Both threads read the count before either takes the slot.
abbrev race : List ℕ
race = 0 ∷ 1 ∷ 0 ∷ 1 ∷ 1 ∷ []

race_lem : (run one_slot race).threads ≡ holding ∷ refused ∷ []
unfolding run step turn_at
race_lem = refl

one_slot-IsCounted : IsCounted one_slot
unfolding holders
one_slot-IsCounted = record { fits = omega arith; capped = omega arith; exact = refl }

run-IsCounted_example : IsCounted (run one_slot race)
run-IsCounted_example = run-IsCounted one_slot race one_slot-IsCounted

abbrev guard : IdempotencyGuard
guard = record { ttl = 300; seen = [] }

accepted : (check_and_register guard 10 "t1").1 ≡ true
unfolding check_and_register get
accepted = refl

check_and_register_again_example :
    (check_and_register
      (Duplicates.run (check_and_register guard 10 "t1").0 ((20, "t2") ∷ (30, "t1") ∷ []))
      309
      "t1").1
    ≡ false
check_and_register_again_example =
    check_and_register_again guard 10 309 "t1" ((20, "t2") ∷ (30, "t1") ∷ [])
      (λ h. ground (arith, eq_iff "t1" "")) accepted (omega arith, (omega arith, tt)) (omega arith)

-- A duplicate is refused to the last millisecond and no longer.
forgotten : (check_and_register (check_and_register guard 10 "t1").0 310 "t1").1 ≡ true
unfolding check_and_register get insert
forgotten = refl

lost_once : classify true true absent 1 3 false ≡ (directory_absent, reregister)
unfolding classify
lost_once = refl

abbrev safe : CooperativeInferencePolicy
safe = record {
  enabled = true;
  allow_coordinator = false;
  allow_worker = true;
  max_replicas = 3;
  max_worker_timeout_ms = 30000;
  max_concurrent_remote = 2;
  allow_tool_execution = false;
  in_flight = 0;
}

word-IsSegment : IsSegment (codes "urn") × IsSegment (codes "tool")
word-IsSegment = (
  (omega arith, (omega arith, (omega arith, tt))),
  (omega arith, (omega arith, (omega arith, (omega arith, tt)))),
)

tools_refused : permits_intent safe "urn:iicp:intent:tool:run:v1" ≡ false
unfolding permits_intent permits_codes
tools_refused = refl

chat_permitted : permits_intent safe "urn:iicp:intent:llm:chat:v1" ≡ true
unfolding permits_intent permits_codes
chat_permitted = refl

-- The first turn meets another value than was read; another thread reads; the next turn takes the slot.
acquire_ends_example :
    leaves 0
      (record { max_concurrent = 2; active = 0; threads = loaded 3 ∷ ready ∷ [] })
      (0 ∷ 1 ∷ 0 ∷ [])
    ≡ true
unfolding changes turns_of step turn_at
acquire_ends_example =
    acquire_ends 0 (record { max_concurrent = 2; active = 0; threads = loaded 3 ∷ ready ∷ [] })
      (0 ∷ 1 ∷ 0 ∷ []) 3 refl (omega arith)
