-- ===== src/Lifecycle/Sqlite.antt =====
-- src/service_lifecycle_sqlite.rs: the store in a database. A table is a map from its primary key, or a
-- list of rows; a transaction that fails leaves the database as it was. The JSON of a detail is stored as
-- it is. `fault` is the failure that the database reports to a call, if any.
pub mod Calls
pub mod Details
pub mod Memory
pub mod Replies
pub mod Tables
pub mod Simulation
pub mod Writes
pub mod Agreement
pub mod Runs
use Prim.Native.String.{◌++◌ as append}
use iicp_client_rust.Base.{
  ℕ, ◌+◌, ◌-◌, max, String, ◌==◌, Bool, true, false, not, ◌&&◌, ◌||◌, List, [], ◌∷◌, ◌++◌, Option,
  none, some, Result, ok, err, ◌>>=◌, ◌>>◌, ok_or, ensure, ltb, leb, eqb, any, first, retain,
  if◌then◌else◌,
}
use iicp_client_rust.Base.Words.{ℤ, i64_mod, wrapping_add, saturating_sub}
use iicp_client_rust.Base.Dict.{get, insert, remove, values, contains_key}
use iicp_client_rust.Lifecycle.Types.{
  LifecycleEvent, LifecycleRecord, LifecycleError, conflict, unknown_task, storage,
}
use iicp_client_rust.Lifecycle.States.{terminal, legal_transition}
use iicp_client_rust.Lifecycle.Store.{accepted_event, canonical_state, replay}
use iicp_client_rust.Lifecycle.Detail.{Json, content_free_detail}

-- A row of `lifecycle_tasks`, under its `task_id`.
pub record TaskRow : Type 0 where
  pub idempotency_key : String
  pub request_digest : String
  pub state : String
  pub latest_sequence : ℕ
  pub updated_at_ms : ℕ

pub record Database (V : Type 0) : Type 0 where
  pub tasks : List (String × TaskRow)
  pub events : List (LifecycleEvent V)
  pub max_events : ℕ
  pub terminal_status_ttl_ms : ℕ

abbrev pub Answer : Type 0 → Type 0 → Type 0
Answer V A = Database V × Result LifecycleError A

-- An INTEGER column is an i64; a u64 that does not fit is refused when it is bound to a statement. The text is
-- that of rusqlite, which is not compared with anything.
abbrev pub fits_integer : ℕ → Bool
fits_integer n = ltb n i64_mod

abbrev pub out_of_range : String
out_of_range = "out of range"

-- What a transaction commits, or the error with which it is rolled back.
abbrev pub Transaction : Type 0 → Type 0 → Type 0
Transaction V A = Result LifecycleError (Answer V A)

abbrev pub commit : {V A : Type 0} → Database V → Transaction V A → Answer V A
commit db (ok answer) = answer
commit db (err e) = (db, err e)

abbrev pub with_db : {V A : Type 0} → Option String → Database V → Answer V A → Answer V A
with_db none db answer = answer
with_db (some message) db answer = (db, err (storage message))

-- The `?` between two transactions.
abbrev pub and_then : {V A B : Type 0} → Answer V A → (Database V → A → Answer V B) → Answer V B
and_then (db, ok a) k = k db a
and_then (db, err e) k = (db, err e)

-- `WHERE task_id=?1 OR idempotency_key=?2`, and the comparison of the row with the arguments.
abbrev pub matches_row : String → String → String × TaskRow → Bool
matches_row task_id key row = row.0 == task_id || row.1.idempotency_key == key

abbrev pub same_row : String → String → String → String × TaskRow → Bool
same_row task_id key digest row =
    row.0 == task_id && row.1.idempotency_key == key && row.1.request_digest == digest

abbrev pub is_expired : ℕ → ℕ → TaskRow → Bool
is_expired ttl now row = terminal row.state && ltb ttl (saturating_sub now row.updated_at_ms)

abbrev pub accepted_row : String → String → ℕ → TaskRow
accepted_row key digest now = record {
  idempotency_key = key;
  request_digest = digest;
  state = "accepted";
  latest_sequence = 0;
  updated_at_ms = now;
}

abbrev pub moved_row : TaskRow → String → ℕ → ℕ → TaskRow
moved_row row state sequence now = record row {
  state = state;
  latest_sequence = sequence;
  updated_at_ms = now;
}

module _ {V : Type 0} where
  unfoldable pub open_db : ℕ → ℕ → Database V
  open_db max_events ttl = record {
    tasks = [];
    events = [];
    max_events = max max_events 2;
    terminal_status_ttl_ms = ttl;
  }

  -- `ORDER BY sequence`.
  unfoldable pub place : LifecycleEvent V → List (LifecycleEvent V) → List (LifecycleEvent V)
  place e [] = e ∷ []
  place e (f ∷ es) =
      let rest = place e es in if leb e.sequence f.sequence then e ∷ f ∷ es else f ∷ rest

  unfoldable pub by_sequence : List (LifecycleEvent V) → List (LifecycleEvent V)
  by_sequence [] = []
  by_sequence (e ∷ es) = place e (by_sequence es)

  -- The rows of one task, and those of the others.
  unfoldable pub rows_of : String → List (LifecycleEvent V) → List (LifecycleEvent V)
  rows_of task_id = retain (λ e. e.task_id == task_id)

  unfoldable pub record_of :
      String → TaskRow → List (LifecycleEvent V) → Result LifecycleError (LifecycleRecord V)
  record_of task_id row [] = err (storage "task has no lifecycle events")
  record_of task_id row (e ∷ es) = ok (record {
    task_id = task_id;
    idempotency_key = row.idempotency_key;
    request_digest = row.request_digest;
    state = row.state;
    events = e ∷ es;
    updated_at_ms = row.updated_at_ms;
  })

  unfoldable pub load_record : Database V → String → Result LifecycleError (LifecycleRecord V)
  load_record db task_id = ok_or (get task_id db.tasks) unknown_task >>= λ row.
      record_of task_id row (by_sequence (rows_of task_id db.events))

  -- `INSERT INTO lifecycle_tasks`: the task and its key are unique, and its numbers fit the columns.
  unfoldable pub insert_task : Database V → String → TaskRow → Result LifecycleError (Database V)
  insert_task db task_id row =
      ensure
        (not (
          contains_key task_id db.tasks
          || any (λ r. r.idempotency_key == row.idempotency_key) (values db.tasks)))
        (storage "UNIQUE constraint failed")
      >> ensure (fits_integer row.latest_sequence && fits_integer row.updated_at_ms)
          (storage out_of_range)
      >> ok (record db { tasks = insert task_id row db.tasks })

  -- `INSERT INTO lifecycle_events`: a task has one event of a sequence, and its numbers fit the columns.
  unfoldable pub insert_event : Database V → LifecycleEvent V → Result LifecycleError (Database V)
  insert_event db e =
      ensure (not (any (λ f. eqb f.sequence e.sequence) (rows_of e.task_id db.events)))
        (storage "UNIQUE constraint failed")
      >> ensure (fits_integer e.sequence && fits_integer e.observed_at_ms) (storage out_of_range)
      >> ok (record db { events = db.events ++ e ∷ [] })

  -- The end of `submit_sync`, for a task that is new.
  unfoldable pub create_task :
      V → Database V → ℕ → String → String → String → Transaction V (LifecycleRecord V × Bool)
  create_task empty db now task_id key digest = do
    with_task ← insert_task db task_id (accepted_row key digest now)
    with_event ← insert_event with_task (accepted_event empty task_id now)
    r ← load_record with_event task_id
    ok (with_event, ok (r, true))

  unfoldable pub submit_tx :
      V → Database V → ℕ → String → String → String → Transaction V (LifecycleRecord V × Bool)
  submit_tx empty db now task_id key digest =
      elim (first (retain (matches_row task_id key) db.tasks)) [
        | none ↦ create_task empty db now task_id key digest
        | some row ↦
            if same_row task_id key digest row
            then (load_record db task_id >>= λ r. ok (db, ok (r, false)))
            else err (conflict "task or idempotency identifier reused for different content")
      ]

  -- `DELETE FROM lifecycle_tasks`, which deletes the task's events too.
  abbrev pub delete_task : Database V → String → Database V
  delete_task db task_id = record db {
    tasks = remove task_id db.tasks;
    events = retain (λ e. not (e.task_id == task_id)) db.events;
  }

  unfoldable pub status_tx : Database V → ℕ → String → Transaction V (LifecycleRecord V)
  status_tx db now task_id = ok_or (get task_id db.tasks) unknown_task >>= λ row.
      if is_expired db.terminal_status_ttl_ms now row
      then ok (delete_task db task_id, err unknown_task)
      else (load_record db task_id >>= λ r. ok (db, ok r))

  abbrev pub moved_event : String → String → ℕ → V → ℕ → LifecycleEvent V
  moved_event task_id state sequence detail now = record {
    task_id = task_id;
    sequence = sequence;
    state = state;
    is_final = terminal state;
    observed_at_ms = now;
    detail = detail;
  }

  -- `DELETE FROM lifecycle_events WHERE task_id=?1 AND sequence<?2`.
  abbrev pub forget_events : String → ℕ → List (LifecycleEvent V) → List (LifecycleEvent V)
  forget_events task_id cutoff = retain (λ e. not (e.task_id == task_id && ltb e.sequence cutoff))

  -- The UPDATE binds the same numbers as the INSERT after it, which refuses them if they do not fit.
  unfoldable pub transition_tx :
      Database V → ℕ → String → String → V → Transaction V (LifecycleEvent V)
  transition_tx db now task_id state detail = do
    row ← ok_or (get task_id db.tasks) unknown_task
    ensure (legal_transition row.state state)
        (conflict (append "illegal transition " (append row.state (append " -> " state))))
    let sequence = wrapping_add row.latest_sequence 1
    let event = moved_event task_id state sequence detail now
    with_event ←
        insert_event
          (record db { tasks = insert task_id (moved_row row state sequence now) db.tasks }) event
    let cutoff = saturating_sub sequence (db.max_events - 1)
    ok (record with_event { events = forget_events task_id cutoff with_event.events }, ok event)

  module _ (json : Json V) where
    unfoldable pub submit :
        Option String
        → Database V
        → ℕ
        → String
        → String
        → String
        → Answer V (LifecycleRecord V × Bool)
    submit fault db now task_id key digest =
        with_db fault db (commit db (submit_tx (json.object []) db now task_id key digest))

    unfoldable pub transition :
        Option String → Database V → ℕ → String → String → V → Answer V (LifecycleEvent V)
    transition fault db now task_id requested detail = elim (content_free_detail json detail) [
      | err e ↦ (db, err e)
      | ok stored ↦
          with_db fault db
            (commit db (transition_tx db now task_id (canonical_state requested) stored))
    ]

  unfoldable pub status : Option String → Database V → ℕ → String → Answer V (LifecycleRecord V)
  status fault db now task_id = with_db fault db (commit db (status_tx db now task_id))

  unfoldable pub events_after :
      Option String → Database V → ℕ → String → ℤ → Answer V (List (LifecycleEvent V))
  events_after fault db now task_id after =
      and_then (status fault db now task_id) λ db' r. (db', replay r after)

-- The three transactions of `cancel`, each with its failure and its time. `others` is what other tasks and
-- processes do to the database between them, and `detail` the JSON `{"outcome": "cancelled"}`.
unfoldable pub cancel :
    {V : Type 0}
    → Json V
    → V
    → (ℕ → Database V → Database V)
    → (ℕ → Option String)
    → Database V
    → ℕ
    → ℕ
    → ℕ
    → String
    → Answer V (LifecycleRecord V)
cancel json detail others fault db now later last task_id =
    and_then (status (fault 0) db now task_id) λ db₁ current.
      if terminal current.state
      then status (fault 2) (others 0 db₁) last task_id
      else (and_then (transition json (fault 1) (others 0 db₁) later task_id "cancelled" detail)
          λ db₂ event. status (fault 2) (others 1 db₂) last task_id)
