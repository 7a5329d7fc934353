-- ===== src/Lifecycle/BindingTests.antt =====
-- Runs of the observer buffer, the cancellation registry and the HTTP binding, and their theorems at
-- concrete inputs.
use iicp_client_rust.Base.{
  ℕ, String, ◌≡◌, refl, Bool, true, false, List, [], ◌∷◌, some, ok, ◌≤◌, length, retain, ltb,
}
use iicp_client_rust.Base.Dict.{get, insert}
use iicp_client_rust.Lifecycle.Types.{LifecycleEvent, LifecycleRecord}
use iicp_client_rust.Lifecycle.States.{terminal}
use iicp_client_rust.Lifecycle.Store.{LifecycleStore, submit, accepted_record}
use iicp_client_rust.Lifecycle.Observer.{subscribe, new, publish, poll, trim}
use iicp_client_rust.Lifecycle.Observer.Log.{Refines, log_publish, new-Refines, publish-Refines}
use iicp_client_rust.Lifecycle.Observer.Polls.{
  Action, publishes, subscribes, run, run_log, poll-run,
}
use iicp_client_rust.Lifecycle.Cancellation.{Registry, Others, empty, remember, respond, request}
use iicp_client_rust.Lifecycle.Cancellation.Access
use iicp_client_rust.Lifecycle.Cancellation.Evidence.{IsTracked, empty-IsTracked}
use iicp_client_rust.Lifecycle.Cancellation.Runs.{run-IsTracked, registers, requests}
use iicp_client_rust.Lifecycle.Cancellation.Runs
use iicp_client_rust.Lifecycle.Http.{Context, get_task, route, refusal, shared_token}
use iicp_client_rust.Lifecycle.Http.Authorization.{route_refused}

abbrev event : ℕ → LifecycleEvent String
event n = record {
  task_id = "t1";
  sequence = n;
  state = "streaming";
  is_final = false;
  observed_at_ms = n;
  detail = "";
}

abbrev calls : List (Action String)
calls = subscribes "o1" ∷ publishes (event 0) ∷ publishes (event 1) ∷ publishes (event 2) ∷ []

-- The buffer of two has dropped event 0; an observer that has it misses nothing.
polled : poll (run (new 2 1) calls) 0 ≡ ok (event 1 ∷ event 2 ∷ [])
unfolding poll run new publish trim subscribe get
polled = refl

poll-run_example :
    (event 1 ∷ event 2 ∷ [] ≡ retain (λ e. ltb 0 e.sequence) (run_log [] calls))
    × (length (run (new 2 1) calls).observers ≤ (run (new 2 1) calls).max_observers)
poll-run_example = poll-run 2 1 calls 0 (event 1 ∷ event 2 ∷ []) polled

publish-Refines_example :
    Refines (publish (new 2 1) (event 0)).0 (log_publish [] (event 0)).0
    × ((publish (new 2 1) (event 0)).1 ≡ (log_publish [] (event 0)).1)
publish-Refines_example = publish-Refines (new 2 1) [] (event 0) (new-Refines 2 1)

abbrev willing : Bool → Bool
willing h = h

-- One handler that answers true.
abbrev registered : Registry Bool
registered = record {
  handlers = ("t1", true) ∷ [];
  signalled = [];
  evidence = [];
  evidence_order = [];
}

abbrev quiet : Others Bool
quiet n g = g

sent : (request willing quiet registered "t1" "running").1 ≡ "cancel_signalled"
unfolding request respond get terminal
sent = refl

refused : (request willing quiet registered "t2" "running").1 ≡ "cancel_unsupported"
unfolding request respond get terminal
refused = refl

-- Another thread reports on a task of its own in every gap.
abbrev busy : Others Bool
busy n g =
    remember g (record { task_id = "t3"; outcome = "execution_stopped"; cleanup_complete = false })

abbrev cancelled : List (Runs.Action Bool)
cancelled = registers busy "t1" true ∷ requests willing busy "t1" "running" ∷ []

run-IsTracked_example : IsTracked (Runs.run empty cancelled)
run-IsTracked_example = run-IsTracked empty cancelled empty-IsTracked (
  λ n g. Access.next Access.here (Access.remembers _ refl),
  (λ n g. Access.next Access.here (Access.remembers _ refl), tt),
)

abbrev context : Context String
context = record {
  authorizer = shared_token "secret";
  to_json = λ e. e.state;
  null = "";
  cancelled = "cancelled";
  others = λ _ s. s;
  now = 9;
  later = 10;
  last_read = 11;
}

abbrev blank : LifecycleStore String
blank = record { records = []; max_events = 2; terminal_status_ttl_ms = 1000 }

abbrev task_record : LifecycleRecord String
task_record = accepted_record "" "t1" "k1" "d1" 5

abbrev one_task : LifecycleStore String
one_task = record blank { records = ("t1", task_record) ∷ [] }

route_refused_example :
    route context (some "Bearer guess") (get_task "t1") one_task ≡ (one_task, refusal 401)
unfolding shared_token
route_refused_example = route_refused context (some "Bearer guess") (get_task "t1") one_task refl

submitted_first : submit "" blank 5 "t1" "k1" "d1" ≡ (one_task, ok (task_record, true))
unfolding submit get insert
submitted_first = refl
