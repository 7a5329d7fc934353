-- ===== src/Lifecycle/Http/Authorization.antt =====
-- What the HTTP binding of src/service_lifecycle.rs lets a caller do and learn.
use Prim.Native.String.{◌++◌ as append}
use iicp_client_rust.Base.{
  ℕ, String, eq_iff, ◌≡◌, ◌↔◌, Bool, true, false, not, ◌&&◌, Option, none, some, ok, err, arith,
  if◌then◌else◌,
}
use iicp_client_rust.Lifecycle.Types.{LifecycleRecord}
use iicp_client_rust.Lifecycle.Store.{LifecycleStore, submit}
use iicp_client_rust.Lifecycle.Store.Repeats.{Keeps, submit_again}
use iicp_client_rust.Lifecycle.Store.Invariant.{Reach}
use iicp_client_rust.Base.Dict.{get}
use iicp_client_rust.Lifecycle.Http.{
  AuthorizationDecision, LifecycleOperation, Authorizer, authorize, shared_token, Context, Request,
  post_task, get_task, get_events, post_cancel, operation_of, task_of, route, refusal, submits,
  statuses, observes, cancels, record_json,
}

-- What the authorizer says of a request.
abbrev pub decision_on :
    {V : Type 0} → Context V → Option String → Request V → AuthorizationDecision
decision_on c credential request = c.authorizer (record {
  credential = credential;
  operation = operation_of request;
  task_id = task_of request;
})

-- The status of a refusal depends on the decision only.
abbrev pub refusal_code : AuthorizationDecision → ℕ
refusal_code d = if not d.authenticated then 401 else if d.conceal_task then 404 else 403

authorize_refused :
    (a : Authorizer) (credential : Option String) (operation : LifecycleOperation)
    (task_id : String)
    → let d = a (record { credential = credential; operation = operation; task_id = task_id }) in
      (d.allowed && d.authenticated) ≡ false
      → authorize a credential operation task_id ≡ err (refusal_code d)
unfolding authorize
authorize_refused a credential operation task_id h = rw h (ground arith)

module _ {V : Type 0} where
  -- A caller that is not both authenticated and allowed changes nothing, and is told what the decision
  -- says, whatever the store holds.
  pub route_refused :
      (c : Context V) (credential : Option String) (request : Request V) (s : LifecycleStore V)
      → ((decision_on c credential request).allowed
          && (decision_on c credential request).authenticated)
        ≡ false
      → route c credential request s
        ≡ (s, refusal (refusal_code (decision_on c credential request)))
  unfolding route
  route_refused c credential (post_task task_id key digest) s h =
      rw (authorize_refused c.authorizer credential submits task_id h)
  route_refused c credential (get_task task_id) s h =
      rw (authorize_refused c.authorizer credential statuses task_id h)
  route_refused c credential (get_events task_id after) s h =
      rw (authorize_refused c.authorizer credential observes task_id h)
  route_refused c credential (post_cancel task_id) s h =
      rw (authorize_refused c.authorizer credential cancels task_id h)

authorize_granted :
    (a : Authorizer) (credential : Option String) (operation : LifecycleOperation)
    (task_id : String)
    → let d = a (record { credential = credential; operation = operation; task_id = task_id }) in
      (d.allowed && d.authenticated) ≡ true → authorize a credential operation task_id ≡ ok tt
unfolding authorize
authorize_granted a credential operation task_id h = rw h

module _ {V : Type 0} where
  -- A client that retries an accepted submission, at whatever time and after whatever calls that do not make
  -- the store forget the task, is answered 200 with the task's record, and the store stays as it is.
  pub route_resubmit :
      (c : Context V) (credential : Option String) (task_id key digest : String)
      (s t u : LifecycleStore V) (earlier : ℕ) (r : LifecycleRecord V) (created : Bool)
      → ((decision_on c credential (post_task task_id key digest)).allowed
          && (decision_on c credential (post_task task_id key digest)).authenticated)
        ≡ true
      → submit c.null s earlier task_id key digest ≡ (t, ok (r, created))
      → (since : Reach t u) → Keeps task_id since
      → (q : LifecycleRecord V) × (get task_id u.records ≡ some q)
        × (route c credential (post_task task_id key digest) u
            ≡ (u, record { status = 200; body = record_json q }))
  unfolding route
  route_resubmit c credential task_id key digest s t u earlier r created h first since kept =
      let (q, found, answer) =
        submit_again c.null s t u earlier c.now task_id key digest r created first since kept in
      (q, found, rw (authorize_granted c.authorizer credential submits task_id h, answer))

-- With the shared token a request passes exactly when its credential is the bearer token.
pub shared_token_lem :
    (token : String) (credential : Option String) (operation : LifecycleOperation)
    (task_id : String)
    → (authorize (shared_token token) credential operation task_id ≡ ok tt)
      ↔ (credential ≡ some (append "Bearer " token))
unfolding authorize shared_token
shared_token_lem token none operation task_id = (λ h. ground arith, λ h. ground arith)
shared_token_lem token (some credential) operation task_id = (
  λ h. ground (arith, eq_iff credential (append "Bearer " token)),
  λ h. ground (arith, eq_iff credential (append "Bearer " token)),
)
