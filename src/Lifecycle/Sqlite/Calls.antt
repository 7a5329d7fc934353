-- ===== src/Lifecycle/Sqlite/Calls.antt =====
-- Calls on a database of src/service_lifecycle_sqlite.rs and on a store of src/service_lifecycle.rs, and their
-- replies.
use iicp_client_rust.Base.{ℕ, String, Bool, List, [], ◌∷◌, Option, none, some, Result, ok, err}
use iicp_client_rust.Base.Words.{ℤ}
use iicp_client_rust.Lifecycle.Types.{LifecycleEvent, LifecycleRecord, LifecycleError, storage}
use iicp_client_rust.Lifecycle.Detail.{Json, content_free_detail}
use iicp_client_rust.Lifecycle.Store
use iicp_client_rust.Lifecycle.Store.{LifecycleStore, Outcome}
use iicp_client_rust.Lifecycle.Sqlite
use iicp_client_rust.Lifecycle.Sqlite.{Database}
use iicp_client_rust.Lifecycle.Sqlite.Agreement.{blank}

-- A call, with the failure of the database and the time.
pub data Call (V : Type 0) : Type 0 where
  submit_call : Option String → ℕ → String → String → String → Call V
  status_call : Option String → ℕ → String → Call V
  transition_call : Option String → ℕ → String → String → V → Call V
  events_call : Option String → ℕ → String → ℤ → Call V

pub data Reply (V : Type 0) : Type 0 where
  submitted : Result LifecycleError (LifecycleRecord V × Bool) → Reply V
  told : Result LifecycleError (LifecycleRecord V) → Reply V
  moved : Result LifecycleError (LifecycleEvent V) → Reply V
  listed : Result LifecycleError (List (LifecycleEvent V)) → Reply V

-- A call that fails does nothing to the store.
abbrev pub unless : {V A : Type 0} → Option String → LifecycleStore V → Outcome V A → Outcome V A
unless none s outcome = outcome
unless (some message) s outcome = (s, err (storage message))

abbrev pub refused_or :
    {V A : Type 0} → LifecycleStore V → Result LifecycleError V → (V → Outcome V A) → Outcome V A
refused_or s (err e) call = (s, err e)
refused_or s (ok stored) call = call stored

-- A reply, with the text of a conflict left out.
abbrev pub reply :
    {A B C : Type 0} → (Result LifecycleError A → C) → B × Result LifecycleError A → B × C
reply f (state, result) = (state, f (blank result))

abbrev pub time_of : {V : Type 0} → Call V → ℕ
time_of (submit_call fault now task_id key digest) = now
time_of (status_call fault now task_id) = now
time_of (transition_call fault now task_id requested detail) = now
time_of (events_call fault now task_id after) = now

module _ {V : Type 0} (json : Json V) where
  abbrev pub act_db : Database V → Call V → Database V × Reply V
  act_db db (submit_call fault now task_id key digest) =
      reply submitted (Sqlite.submit json fault db now task_id key digest)
  act_db db (status_call fault now task_id) = reply told (Sqlite.status fault db now task_id)
  act_db db (transition_call fault now task_id requested detail) =
      reply moved (Sqlite.transition json fault db now task_id requested detail)
  act_db db (events_call fault now task_id after) =
      reply listed (Sqlite.events_after fault db now task_id after)

  -- The store in memory, given what a detail keeps; `null` is `Value::Null`.
  abbrev pub act_store : V → LifecycleStore V → Call V → LifecycleStore V × Reply V
  act_store null s (submit_call fault now task_id key digest) =
      reply submitted (unless fault s (Store.submit null s now task_id key digest))
  act_store null s (status_call fault now task_id) =
      reply told (unless fault s (Store.status s now task_id))
  act_store null s (transition_call fault now task_id requested detail) = reply moved (
      refused_or s (content_free_detail json detail)
        (λ stored. unless fault s (Store.transition s now task_id requested stored)))
  act_store null s (events_call fault now task_id after) =
      reply listed (unless fault s (Store.events_after s now task_id after))

  unfoldable pub run_db : Database V → List (Call V) → List (Reply V)
  run_db db [] = []
  run_db db (call ∷ calls) = (act_db db call).1 ∷ run_db (act_db db call).0 calls

  unfoldable pub run_store : V → LifecycleStore V → List (Call V) → List (Reply V)
  run_store null s [] = []
  run_store null s (call ∷ calls) =
      (act_store null s call).1 ∷ run_store null (act_store null s call).0 calls
