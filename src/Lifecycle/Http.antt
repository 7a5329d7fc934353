-- ===== src/Lifecycle/Http.antt =====
-- The draft HTTP binding of src/service_lifecycle.rs over the store in memory. A header that is no text
-- counts as absent, as in `authorize`. A response is its status and its body; the JSON text of an
-- event is a parameter, `to_json`, since serde_json writes it.
pub mod Authorization
use Prim.Native.String.{◌++◌ as append}
use iicp_client_rust.Base.{
  ℕ, String, ◌==◌, Bool, true, false, not, ◌&&◌, List, map, Option, none, some, Result, ok, err,
  if◌then◌else◌,
}
use iicp_client_rust.Base.Words.{ℤ}
use iicp_client_rust.Lifecycle.Types.{
  LifecycleEvent, LifecycleRecord, LifecycleError, conflict, unknown_task, resume_unavailable,
  storage, latest_sequence,
}
use iicp_client_rust.Lifecycle.States.{terminal}
use iicp_client_rust.Lifecycle.Store.{LifecycleStore, Outcome, submit, status, cancel, events_after}

pub data LifecycleOperation : Type 0 where
  submits statuses observes cancels : LifecycleOperation

pub record AuthorizationRequest : Type 0 where
  pub credential : Option String
  pub operation : LifecycleOperation
  pub task_id : String

pub record AuthorizationDecision : Type 0 where
  pub authenticated : Bool
  pub allowed : Bool
  pub conceal_task : Bool

abbrev pub Authorizer : Type 0
Authorizer = AuthorizationRequest → AuthorizationDecision

-- The bodies that the handlers write.
pub data Body : Type 0 where
  nothing : Body
  task : String → String → ℕ → Bool → Body
  lines : List String → Body
  error_code : String → Body
  error_message : String → String → Body
  error_resume : String → ℕ → Body

pub record Response : Type 0 where
  pub status : ℕ
  pub body : Body

unfoldable pub authorize :
    Authorizer → Option String → LifecycleOperation → String → Result ℕ (Unit {0})
authorize authorizer credential operation task_id =
    let decision =
      authorizer (record { credential = credential; operation = operation; task_id = task_id }) in
    if decision.allowed && decision.authenticated
    then ok tt
    else if not decision.authenticated
    then err 401
    else if decision.conceal_task
    then err 404
    else err 403

abbrev pub record_json : {V : Type 0} → LifecycleRecord V → Body
record_json r = task r.task_id r.state (latest_sequence r) (terminal r.state)

abbrev pub lifecycle_error : LifecycleError → Response
lifecycle_error unknown_task = record { status = 404; body = error_code "unknown_task" }
lifecycle_error (conflict message) = record {
  status = 409;
  body = error_message "conflict" message;
}
lifecycle_error (resume_unavailable state latest) = record {
  status = 409;
  body = error_resume state latest;
}
lifecycle_error (storage message) = record {
  status = 500;
  body = error_message "lifecycle_storage_error" message;
}

abbrev pub refusal : ℕ → Response
refusal code = record { status = code; body = nothing }

-- `Bearer <token>`, the compatibility authorizer of `lifecycle_router_with_persistence`.
unfoldable pub shared_token : String → Authorizer
shared_token token request =
    let valid : Bool = elim request.credential [
      | none ↦ false
      | some credential ↦ credential == append "Bearer " token
    ] in
    record { authenticated = valid; allowed = valid; conceal_task = false }

-- A request of a client, with what its handler reads.
pub data Request (V : Type 0) : Type 0 where
  post_task : String → String → String → Request V
  get_task : String → Request V
  get_events : String → ℤ → Request V
  post_cancel : String → Request V

abbrev pub operation_of : {V : Type 0} → Request V → LifecycleOperation
operation_of (post_task task_id key digest) = submits
operation_of (get_task task_id) = statuses
operation_of (get_events task_id after) = observes
operation_of (post_cancel task_id) = cancels

abbrev pub task_of : {V : Type 0} → Request V → String
task_of (post_task task_id key digest) = task_id
task_of (get_task task_id) = task_id
task_of (get_events task_id after) = task_id
task_of (post_cancel task_id) = task_id

-- `if let Err(status) = authorize(…) { return status }` before the rest of a handler.
abbrev pub guarded :
    {V : Type 0}
    → Result ℕ (Unit {0})
    → LifecycleStore V
    → LifecycleStore V × Response
    → LifecycleStore V × Response
guarded (err code) s rest = (s, refusal code)
guarded (ok _) s rest = rest

-- The `match` on a store's answer.
abbrev pub answered : {V A : Type 0} → (A → Response) → Outcome V A → LifecycleStore V × Response
answered respond (s, ok a) = (s, respond a)
answered respond (s, err e) = (s, lifecycle_error e)

abbrev pub submitted : {V : Type 0} → LifecycleRecord V × Bool → Response
submitted (r, created) = record { status = if created then 202 else 200; body = record_json r }

abbrev pub shown : {V : Type 0} → LifecycleRecord V → Response
shown r = record { status = 200; body = record_json r }

-- The router's state, and what a handler meets while it runs: `null` and `cancelled` are the JSON
-- of the details, `now`, `later` and `last_read` the times at which a handler reads the clock, and
-- `others` what other tasks do between the locks of a cancellation.
pub record Context (V : Type 0) : Type 0 where
  pub authorizer : Authorizer
  pub to_json : LifecycleEvent V → String
  pub null : V
  pub cancelled : V
  pub others : ℕ → LifecycleStore V → LifecycleStore V
  pub now : ℕ
  pub later : ℕ
  pub last_read : ℕ

module _ {V : Type 0} (c : Context V) where
  open c use {authorizer, to_json, null, cancelled, others, now, later, last_read}

  unfoldable pub submit_http :
      Option String → String → String → String → LifecycleStore V → LifecycleStore V × Response
  submit_http credential task_id key digest s =
      guarded (authorize authorizer credential submits task_id) s
        (answered submitted (submit null s now task_id key digest))

  unfoldable pub status_http :
      Option String → String → LifecycleStore V → LifecycleStore V × Response
  status_http credential task_id s =
      guarded (authorize authorizer credential statuses task_id) s
        (answered shown (status s now task_id))

  unfoldable pub observe_http :
      Option String → String → ℤ → LifecycleStore V → LifecycleStore V × Response
  observe_http credential task_id after s =
      guarded (authorize authorizer credential observes task_id) s (
        answered (λ events. record { status = 200; body = lines (map to_json events) })
          (events_after s now task_id after))

  unfoldable pub cancel_http :
      Option String → String → LifecycleStore V → LifecycleStore V × Response
  cancel_http credential task_id s =
      guarded (authorize authorizer credential cancels task_id) s
        (answered shown (cancel cancelled others s now later last_read task_id))

  -- `lifecycle_router_with_authorizer`.
  unfoldable pub route : Option String → Request V → LifecycleStore V → LifecycleStore V × Response
  unfolding submit_http status_http observe_http cancel_http
  route credential (post_task task_id key digest) s = submit_http credential task_id key digest s
  route credential (get_task task_id) s = status_http credential task_id s
  route credential (get_events task_id after) s = observe_http credential task_id after s
  route credential (post_cancel task_id) s = cancel_http credential task_id s
