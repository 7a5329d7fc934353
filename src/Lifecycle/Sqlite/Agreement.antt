-- ===== src/Lifecycle/Sqlite/Agreement.antt =====
-- The database of src/service_lifecycle_sqlite.rs answers as the store of src/service_lifecycle.rs.
use iicp_client_rust.Base.{
  ℕ, ◌+◌, ◌≤◌, ◌<◌, String, ◌==◌, eq_iff, ◌≡◌, refl, ap, ◌∙◌, true, false, Option, none, some,
  Result, ok, err, first, retain, arith, ◌⊎◌, inl, inr,
}
use iicp_client_rust.Base.Words.{i64_mod}
use iicp_client_rust.Base.Dict.{get, any-values}
use iicp_client_rust.Lifecycle.Types.{
  LifecycleRecord, LifecycleError, conflict, unknown_task, resume_unavailable, storage,
}
use iicp_client_rust.Lifecycle.Store
use iicp_client_rust.Lifecycle.Store.{
  LifecycleStore, Outcome, canonical_state, is_expired, same_submission, replay,
}
use iicp_client_rust.Lifecycle.Store.Cases.{status_cases, submit_cases, transition_cases}
use iicp_client_rust.Lifecycle.Sqlite
use iicp_client_rust.Lifecycle.Sqlite.{
  Database, Answer, Transaction, commit, with_db, same_row, matches_row, status_tx, submit_tx,
  transition_tx, load_record,
}
use iicp_client_rust.Lifecycle.Sqlite.Tables.{row_of, row_option, rows, first_match}
use iicp_client_rust.Lifecycle.Sqlite.Simulation.{
  Holds, Represents, Holds-later, load_record-Represents, row-Represents, delete_task-Holds,
}
use iicp_client_rust.Lifecycle.Sqlite.Writes.{transition_tx-Holds, create_task-Holds}

-- The text of a conflict is not compared.
abbrev pub blank_error : LifecycleError → LifecycleError
blank_error (conflict message) = conflict ""
blank_error unknown_task = unknown_task
blank_error (resume_unavailable state n) = resume_unavailable state n
blank_error (storage message) = storage message

abbrev pub blank : {A : Type 0} → Result LifecycleError A → Result LifecycleError A
blank (ok a) = ok a
blank (err e) = err (blank_error e)

module _ {V A : Type 0} where
  -- The same answer, and tables that hold the new records.
  abbrev pub Agrees : ℕ → Answer V A → Outcome V A → Type 0
  Agrees limit o m = (blank o.1 ≡ blank m.1) × Holds limit o.0 m.0

module _ {V : Type 0} (limit : ℕ) (db : Database V) (s : LifecycleStore V)
    (v : Represents limit db s) where
  row_absent : (task_id : String) → get task_id s.records ≡ none → get task_id db.tasks ≡ none
  row_absent task_id e = row-Represents limit db s task_id v.holds ∙ ap row_option e

  row_found :
      (task_id : String) (r : LifecycleRecord V)
      → get task_id s.records ≡ some r
      → get task_id db.tasks ≡ some (row_of r)
  row_found task_id r e = row-Represents limit db s task_id v.holds ∙ ap row_option e

  expires :
      (r : LifecycleRecord V) (now : ℕ)
      → Sqlite.is_expired db.terminal_status_ttl_ms now (row_of r) ≡ is_expired s now (some r)
  expires r now = ap (λ ttl. Sqlite.is_expired ttl now (row_of r)) v.holds.same_ttl

  pub status-Agrees :
      (now : ℕ) (task_id : String)
      → Agrees (limit + 1) (commit db (status_tx db now task_id)) (Store.status s now task_id)
  unfolding status_tx
  status-Agrees now task_id =
      let kept = Holds-later limit db s v.holds in
      status_cases (λ m. Agrees (limit + 1) (commit db (status_tx db now task_id)) m) s now task_id
        (λ e. rw (row_absent task_id e) (refl, kept))
        (λ r e old.
          rw (row_found task_id r e, expires r now ∙ old)
            (refl, delete_task-Holds (limit + 1) db s task_id kept))
        (λ r e fresh.
          rw
            (
              row_found task_id r e,
              expires r now ∙ fresh,
              load_record-Represents limit db s task_id r v e,
            )
            (refl, kept))

  pub transition-Agrees :
      (now : ℕ) (task_id requested : String) (stored : V)
      → limit < i64_mod
      → now < i64_mod
      → Agrees
          (limit + 1)
          (commit db (transition_tx db now task_id (canonical_state requested) stored))
          (Store.transition s now task_id requested stored)
  transition-Agrees now task_id requested stored fits timed =
      let kept = Holds-later limit db s v.holds in
      transition_cases
        (λ m.
          Agrees (limit + 1)
            (commit db (transition_tx db now task_id (canonical_state requested) stored)) m)
        s now task_id requested stored
        (λ e. unfold transition_tx in rw (row_absent task_id e) (refl, kept))
        (λ r message e none_such.
          unfold transition_tx in rw (row_found task_id r e, none_such) (refl, kept))
        (λ r e edge.
          let (db', moved, holds) =
            transition_tx-Holds limit db s now task_id (canonical_state requested) stored r
              v.valid.room fits timed v.holds e edge in
          rw moved (refl, holds))

  -- The first row that matches is the one of the task, or is not the submission's.
  same_row-same :
      (task_id key digest k : String) (r : LifecycleRecord V)
      → get k s.records ≡ some r
      → get task_id s.records ≡ none
      → same_row task_id key digest (k, row_of r) ≡ false
  same_row-same task_id key digest k r found absent = ground (arith, eq_iff k task_id)

  again :
      (task_id key digest k : String) (r q : LifecycleRecord V)
      → get k s.records ≡ some r
      → get task_id s.records ≡ some q
      → (k ≡ task_id) ⊎ (r.idempotency_key ≡ key)
      → same_submission q key digest ≡ true
      → same_row task_id key digest (k, row_of r) ≡ true
  again task_id key digest k r q found stored why same = ground (
    arith,
    v.bound k task_id r q found stored,
    eq_iff k task_id,
    eq_iff r.idempotency_key key,
    eq_iff q.idempotency_key key,
  )

  other :
      (task_id key digest k : String) (r q : LifecycleRecord V)
      → get k s.records ≡ some r
      → get task_id s.records ≡ some q
      → same_submission q key digest ≡ false
      → same_row task_id key digest (k, row_of r) ≡ false
  other task_id key digest k r q found stored differs = ground (arith, eq_iff k task_id)

  pub submit-Agrees :
      (empty : V) (now : ℕ) (task_id key digest : String)
      → 1 ≤ limit
      → now < i64_mod
      → Agrees
          (limit + 1)
          (commit db (submit_tx empty db now task_id key digest))
          (Store.submit empty s now task_id key digest)
  unfolding submit_tx
  submit-Agrees empty now task_id key digest room timed =
      let kept = Holds-later limit db s v.holds in
      let table : (x : Option (String × Sqlite.TaskRow))
          → first (retain (matches_row task_id key) (rows s.records)) ≡ x
          → first (retain (matches_row task_id key) db.tasks) ≡ x =
        λ x e. ap (λ m. first (retain (matches_row task_id key) m)) v.holds.tasks ∙ e in
      elim (first_match task_id key s.records v.valid.distinct) [
        | inl (missing, absent, free) ↦
            submit_cases
              (λ m. Agrees (limit + 1) (commit db (submit_tx empty db now task_id key digest)) m)
              empty s now task_id key digest (λ r e same. absurd (ground arith))
              (λ r message e differs. absurd (ground arith))
              (λ message e used. absurd (ground arith))
              (λ e unused.
                let (db', created, holds) =
                  create_task-Holds limit db s empty now task_id key digest room timed v.holds
                    absent free in
                rw (table none missing, submit_tx, created) (refl, holds))
        | inr (k, r, found, stored, why) ↦
            submit_cases
              (λ m. Agrees (limit + 1) (commit db (submit_tx empty db now task_id key digest)) m)
              empty s now task_id key digest
              (λ q e same.
                rw
                  (
                    table (some (k, row_of r)) found,
                    submit_tx,
                    again task_id key digest k r q stored e why same,
                    load_record-Represents limit db s task_id q v e,
                  )
                  (refl, kept))
              (λ q message e differs.
                rw
                  (
                    table (some (k, row_of r)) found,
                    submit_tx,
                    other task_id key digest k r q stored e differs,
                  )
                  (refl, kept))
              (λ message e used.
                rw
                  (
                    table (some (k, row_of r)) found,
                    submit_tx,
                    same_row-same task_id key digest k r stored e,
                  )
                  (refl, kept))
              (λ e unused. absurd (
                ground (
                  arith,
                  any-values (λ (w : LifecycleRecord V). w.idempotency_key == key) k s.records
                      unused stored,
                  eq_iff r.idempotency_key key,
                )))
      ]
