-- ===== src/Lifecycle/Sqlite/Simulation.antt =====
-- When a database of src/service_lifecycle_sqlite.rs holds what a store of src/service_lifecycle.rs holds.
use iicp_client_rust.Base.{
  ℕ, ◌+◌, ◌≤◌, String, ◌==◌, eq_iff, ◌≡◌, refl, ap, subst, ◌∙◌, List, [], ◌∷◌, Option, none, some,
  ok, length, arith, if◌then◌else◌,
}
use iicp_client_rust.Base.Dict.{get, insert, remove, get-insert, get-remove, All-get}
use iicp_client_rust.Lifecycle.Types.{LifecycleEvent, LifecycleRecord, latest_sequence}
use iicp_client_rust.Lifecycle.Store.{LifecycleStore}
use iicp_client_rust.Lifecycle.Store.Invariant.{IsValid, IsSound}
use iicp_client_rust.Lifecycle.Store.Binding.{IsBound}
use iicp_client_rust.Lifecycle.Sqlite.{
  Database, rows_of, by_sequence, record_of, load_record, delete_task,
}
use iicp_client_rust.Lifecycle.Sqlite.Tables.{
  Counts, rows_of-others, by_sequence-Counts, row_of, row_option, rows, get-rows, insert-rows,
  remove-rows,
}

abbrev pub events_of : {V : Type 0} → Option (LifecycleRecord V) → List (LifecycleEvent V)
events_of none = []
events_of (some r) = r.events

-- The sequences of a history count up and stay below a limit.
abbrev pub HasCount : {V : Type 0} → ℕ → List (LifecycleEvent V) → Type 0
HasCount limit es = (n : ℕ) × Counts n es × (1 ≤ length es) × (n + length es ≤ limit)

-- The tables are those of the records.
pub record Holds {V : Type 0} (limit : ℕ) (db : Database V) (s : LifecycleStore V) : Type 0 where
  pub same_max : db.max_events ≡ s.max_events
  pub same_ttl : db.terminal_status_ttl_ms ≡ s.terminal_status_ttl_ms
  pub tasks : db.tasks ≡ rows s.records
  pub events : (k : String) → rows_of k db.events ≡ events_of (get k s.records)
  pub counts :
      (k : String) (r : LifecycleRecord V) → get k s.records ≡ some r → HasCount limit r.events

pub record Represents {V : Type 0} (limit : ℕ) (db : Database V) (s : LifecycleStore V)
    : Type 0 where
  pub holds : Holds limit db s
  pub valid : IsValid s
  pub bound : IsBound s.records

module _ {V : Type 0} where
  pub HasCount-later :
      (limit : ℕ) (es : List (LifecycleEvent V)) → HasCount limit es → HasCount (limit + 1) es
  HasCount-later limit es (n, c, h, b) = (n, c, h, omega arith)

  pub Holds-later :
      (limit : ℕ) (db : Database V) (s : LifecycleStore V)
      → Holds limit db s
      → Holds (limit + 1) db s
  Holds-later limit db s v = record {
    same_max = v.same_max;
    same_ttl = v.same_ttl;
    tasks = v.tasks;
    events = v.events;
    counts = λ k r found. HasCount-later limit r.events (v.counts k r found);
  }

  record_of_events :
      (id key digest state : String) (n updated : ℕ) (es : List (LifecycleEvent V))
      → 1 ≤ length es
      → record_of id
          (record {
            idempotency_key = key;
            request_digest = digest;
            state = state;
            latest_sequence = n;
            updated_at_ms = updated;
          })
          es
        ≡ ok (record {
          task_id = id;
          idempotency_key = key;
          request_digest = digest;
          state = state;
          events = es;
          updated_at_ms = updated;
        })
  unfolding record_of
  record_of_events id key digest state n updated [] h = absurd (omega arith)
  record_of_events id key digest state n updated (e ∷ es) h = refl

  -- What is stored under a task is loaded.
  pub load_record-Represents :
      (limit : ℕ) (db : Database V) (s : LifecycleStore V) (k : String) (r : LifecycleRecord V)
      → Represents limit db s
      → get k s.records ≡ some r
      → load_record db k ≡ ok r
  unfolding load_record
  load_record-Represents limit db s k r v found =
      let (n, c, some_events, _) = v.holds.counts k r found in
      let row : get k db.tasks ≡ some (row_of r) =
        ap (get k) v.holds.tasks ∙ get-rows k s.records ∙ ap row_option found in
      let listed : by_sequence (rows_of k db.events) ≡ r.events =
        ap by_sequence (v.holds.events k ∙ ap events_of found) ∙ by_sequence-Counts n r.events c in
      let named : r.task_id ≡ k =
        (All-get (IsSound s.max_events) k s.records v.valid.sound found).0 in
      rw (row, listed)
        (subst (λ id. record_of id (row_of r) r.events ≡ ok r) named
          (record_of_events r.task_id r.idempotency_key r.request_digest r.state (latest_sequence r)
            r.updated_at_ms r.events some_events))

  pub row-Represents :
      (limit : ℕ) (db : Database V) (s : LifecycleStore V) (k : String)
      → Holds limit db s
      → get k db.tasks ≡ row_option (get k s.records)
  row-Represents limit db s k v = ap (get k) v.tasks ∙ get-rows k s.records

  pub delete_task-Holds :
      (limit : ℕ) (db : Database V) (s : LifecycleStore V) (task_id : String)
      → Holds limit db s
      → Holds limit (delete_task db task_id) (record s { records = remove task_id s.records })
  delete_task-Holds limit db s task_id v = record {
    same_max = v.same_max;
    same_ttl = v.same_ttl;
    tasks = ap (remove task_id) v.tasks ∙ remove-rows task_id s.records;
    events = λ k. ground (
      arith,
      rows_of-others k task_id db.events,
      get-remove task_id k s.records,
      v.events k,
      eq_iff k task_id,
      eq_iff task_id k,
    );
    counts = λ k r found. ground (arith, get-remove task_id k s.records, v.counts k r);
  }

  -- A record that is written with its events.
  pub write-Holds :
      (limit : ℕ) (db : Database V) (s : LifecycleStore V) (task_id : String)
      (r : LifecycleRecord V) (es : List (LifecycleEvent V))
      → Holds limit db s
      → HasCount limit r.events
      → ((k : String) → rows_of k es ≡ (if k == task_id then r.events else rows_of k db.events))
      → Holds limit
          (record db { tasks = insert task_id (row_of r) db.tasks; events = es })
          (record s { records = insert task_id r s.records })
  write-Holds limit db s task_id r es v c h = record {
    same_max = v.same_max;
    same_ttl = v.same_ttl;
    tasks = ap (insert task_id (row_of r)) v.tasks ∙ insert-rows task_id r s.records;
    events = λ k. ground (
      arith,
      h k,
      get-insert task_id k r s.records,
      v.events k,
      eq_iff k task_id,
      eq_iff task_id k,
    );
    counts = λ k q found. ground (arith, get-insert task_id k r s.records, v.counts k q);
  }
