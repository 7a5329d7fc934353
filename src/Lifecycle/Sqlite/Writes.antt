-- ===== src/Lifecycle/Sqlite/Writes.antt =====
-- The two writes of src/service_lifecycle_sqlite.rs, beside those of src/service_lifecycle.rs.
use iicp_client_rust.Base.{
  ℕ, ◌+◌, ◌-◌, ◌≤◌, ◌<◌, String, ◌==◌, eq_iff, eq_refl, ◌≡◌, refl, ap, subst, ◌∙◌, true, false, not,
  List, [], ◌∷◌, ◌++◌, none, some, ok, ltb, eqb, any, last, retain, drop, length, arith,
  if◌then◌else◌, String-cases, inl, inr, Bool-cases, length-append, length-drop, ltb→lt, lt→ltb,
}
use iicp_client_rust.Base.Words.{u64_mod, i64_mod, wrapping_add, saturating_sub}
use iicp_client_rust.Base.Dict
use iicp_client_rust.Base.Dict.{get, insert, values, contains_key, get-insert_self}
use iicp_client_rust.Lifecycle.Types.{LifecycleEvent, LifecycleRecord, sequence_or_zero}
use iicp_client_rust.Lifecycle.States.{legal_transition}
use iicp_client_rust.Lifecycle.Store.{
  LifecycleStore, push_bounded, advance, next_event, accepted_event, accepted_record,
}
use iicp_client_rust.Lifecycle.Store.Transitions.{last-push_bounded}
use iicp_client_rust.Lifecycle.Sqlite.{
  Database, rows_of, by_sequence, record_of, load_record, insert_task, insert_event, create_task,
  accepted_row, moved_row, forget_events, transition_tx, place, fits_integer,
}
use iicp_client_rust.Lifecycle.Sqlite.Tables.{
  Counts, rows_of-append_one, rows_of-forget_events, Counts-append_one, Counts-drop, Counts-last,
  any-Counts, retain-Counts, row_of, row_option, any_key-rows,
}
use iicp_client_rust.Lifecycle.Sqlite.Simulation.{
  HasCount, events_of, Holds, Holds-later, write-Holds, row-Represents,
}

module _ {V : Type 0} where
  -- The rows that the cutoff leaves are the events that `push_bounded` leaves.
  cutoff-push_bounded :
      (max_events n : ℕ) (es : List (LifecycleEvent V)) (e : LifecycleEvent V)
      → 2 ≤ max_events
      → Counts n es
      → e.sequence ≡ n + length es
      → retain
          (λ f. not (ltb f.sequence (saturating_sub e.sequence (max_events - 1))))
          (es ++ e ∷ [])
        ≡ push_bounded max_events es e
  unfolding push_bounded
  cutoff-push_bounded m n es e room c last_one =
      let kept =
        retain-Counts n (saturating_sub e.sequence (m - 1)) (es ++ e ∷ [])
          (Counts-append_one n es e c last_one) in
      let size = length-append es (e ∷ []) in
      elim (Bool-cases (ltb m (length (es ++ e ∷ [])))) [
        | inl over ↦
            let same : e.sequence - (m - 1) - n ≡ length (es ++ e ∷ []) - m =
              omega (arith, ltb→lt _ _ over, size, last_one) in
            rw over (kept ∙ ap (λ k. drop k (es ++ e ∷ [])) same)
        | inr fits ↦
            let none_gone : e.sequence - (m - 1) - n ≡ 0 = ground (arith, size, last_one) in
            rw fits (kept ∙ ap (λ k. drop k (es ++ e ∷ [])) none_gone)
      ]

  HasCount-push_bounded :
      (limit max_events : ℕ) (es : List (LifecycleEvent V)) (e : LifecycleEvent V)
      → 2 ≤ max_events
      → limit < u64_mod
      → HasCount limit es
      → e.sequence ≡ wrapping_add (sequence_or_zero (last es)) 1
      → HasCount (limit + 1) (push_bounded max_events es e)
  unfolding push_bounded
  HasCount-push_bounded limit m es e room fits (n, c, h, b) step =
      let last_one : e.sequence ≡ n + length es = omega (arith, Counts-last n es c h, step) in
      let whole = Counts-append_one n es e c last_one in
      let size = length-append es (e ∷ []) in
      elim (Bool-cases (ltb m (length (es ++ e ∷ [])))) [
        | inl over ↦
            let k = length (es ++ e ∷ []) - m in
            let left = length-drop k (es ++ e ∷ []) in
            rw over (
              n + k,
              Counts-drop k n (es ++ e ∷ []) whole,
              omega (arith, left, size, ltb→lt _ _ over),
              omega (arith, left, size, ltb→lt _ _ over),
            )
        | inr under ↦ rw under (n, whole, omega (arith, size), omega (arith, size))
      ]

  -- A row is put after those of its task.
  rows-append :
      (k task_id : String) (all es : List (LifecycleEvent V)) (e : LifecycleEvent V)
      → rows_of task_id all ≡ es
      → e.task_id ≡ task_id
      → rows_of k (all ++ e ∷ []) ≡ (if k == task_id then es ++ e ∷ [] else rows_of k all)
  rows-append k task_id all es e listed named = elim (String-cases k task_id) [
    | inl same ↦ rw (rows_of-append_one k all e, same, named, eq_refl task_id, listed)
    | inr other ↦ ground (arith, rows_of-append_one k all e, eq_iff e.task_id k, eq_iff k task_id)
  ]

  rows-after :
      (k task_id : String) (cutoff : ℕ) (all es : List (LifecycleEvent V)) (e : LifecycleEvent V)
      (left : List (LifecycleEvent V))
      → rows_of task_id all ≡ es
      → e.task_id ≡ task_id
      → retain (λ f. not (ltb f.sequence cutoff)) (es ++ e ∷ []) ≡ left
      → rows_of k (forget_events task_id cutoff (all ++ e ∷ []))
        ≡ (if k == task_id then left else rows_of k all)
  rows-after k task_id cutoff all es e left listed named gone =
      let appended = rows-append k task_id all es e listed named in
      let kept = rows_of-forget_events k task_id cutoff (all ++ e ∷ []) in
      elim (Bool-cases (k == task_id)) [
        | inl same ↦ rw (kept, appended, same) gone
        | inr other ↦ rw (kept, appended, other) refl
      ]

  -- A legal transition of a stored task.
  pub transition_tx-Holds :
      (limit : ℕ) (db : Database V) (s : LifecycleStore V) (now : ℕ) (task_id state : String)
      (stored : V) (r : LifecycleRecord V)
      → 2 ≤ s.max_events
      → limit < i64_mod
      → now < i64_mod
      → Holds limit db s
      → get task_id s.records ≡ some r
      → legal_transition r.state state ≡ true
      → let event = next_event task_id r state stored now in
        (db' : Database V) × (transition_tx db now task_id state stored ≡ ok (db', ok event))
        × Holds
            (limit + 1)
            db'
            (record s { records = insert task_id (advance s.max_events r event) s.records })
  unfolding transition_tx insert_event
  transition_tx-Holds limit db s now task_id state stored r room fits timed v found edge =
      let event = next_event task_id r state stored now in
      let (n, c, h, b) = v.counts task_id r found in
      let last_one : event.sequence ≡ n + length r.events =
        omega (arith, Counts-last n r.events c h) in
      let row : get task_id db.tasks ≡ some (row_of r) =
        row-Represents limit db s task_id v ∙ ap row_option found in
      let listed : rows_of task_id db.events ≡ r.events = v.events task_id ∙ ap events_of found in
      let fresh : any (λ f. eqb f.sequence event.sequence) (rows_of task_id db.events) ≡ false =
        ap (any (λ f. eqb f.sequence event.sequence)) listed
        ∙ any-Counts n event.sequence r.events c (omega arith) in
      let numbered : fits_integer event.sequence ≡ true = lt→ltb _ _ (omega arith) in
      let early : fits_integer now ≡ true = lt→ltb _ _ timed in
      let cutoff = saturating_sub event.sequence (db.max_events - 1) in
      let es = forget_events task_id cutoff (db.events ++ event ∷ []) in
      let moved = moved_row (row_of r) state event.sequence now in
      let same_row : row_of (advance s.max_events r event) ≡ moved =
        ap (λ o. moved_row (row_of r) state (sequence_or_zero o) now)
          (last-push_bounded s.max_events r.events event (omega arith)) in
      (
        record db { tasks = insert task_id moved db.tasks; events = es },
        rw (row, edge, fresh, numbered, early) refl,
        subst
            (λ w.
              Holds (limit + 1) (record db { tasks = insert task_id w db.tasks; events = es })
                (record s { records = insert task_id (advance s.max_events r event) s.records }))
            same_row
            (write-Holds (limit + 1) db s task_id (advance s.max_events r event) es
              (Holds-later limit db s v)
              (HasCount-push_bounded limit s.max_events r.events event room (omega arith)
                (n, c, h, b) refl)
              (λ k. rows-after k task_id cutoff db.events r.events event _ listed refl (
                ap
                  (λ m.
                    retain (λ f. not (ltb f.sequence (saturating_sub event.sequence (m - 1))))
                      (r.events ++ event ∷ []))
                  v.same_max
                ∙ cutoff-push_bounded s.max_events n r.events event room c last_one))),
      )

  -- A task that is new.
  pub create_task-Holds :
      (limit : ℕ) (db : Database V) (s : LifecycleStore V) (empty : V) (now : ℕ)
      (task_id key digest : String)
      → 1 ≤ limit
      → now < i64_mod
      → Holds limit db s
      → get task_id s.records ≡ none
      → any (λ r. r.idempotency_key == key) (values s.records) ≡ false
      → let r = accepted_record empty task_id key digest now in
        (db' : Database V) × (create_task empty db now task_id key digest ≡ ok (db', ok (r, true)))
        × Holds (limit + 1) db' (record s { records = insert task_id r s.records })
  unfolding create_task insert_task insert_event load_record by_sequence record_of place
  create_task-Holds limit db s empty now task_id key digest room timed v absent free =
      let r = accepted_record empty task_id key digest now in
      let event = accepted_event empty task_id now in
      let missing : contains_key task_id db.tasks ≡ false =
        ap Dict.is_some (row-Represents limit db s task_id v ∙ ap row_option absent) in
      let unused : any (λ w. w.idempotency_key == key) (values db.tasks) ≡ false =
        ap (λ m. any (λ w. w.idempotency_key == key) (values m)) v.tasks
        ∙ any_key-rows key s.records
        ∙ free in
      let listed : rows_of task_id db.events ≡ [] = v.events task_id ∙ ap events_of absent in
      let early : fits_integer now ≡ true = lt→ltb _ _ timed in
      let tasks = insert task_id (accepted_row key digest now) db.tasks in
      let es = db.events ++ event ∷ [] in
      let after : (k : String)
          → rows_of k es ≡ (if k == task_id then r.events else rows_of k db.events) =
        λ k. rows-append k task_id db.events [] event listed refl in
      let stored : get task_id tasks ≡ some (accepted_row key digest now) =
        get-insert_self task_id (accepted_row key digest now) db.tasks in
      let one_row : rows_of task_id es ≡ event ∷ [] =
        rows_of-append_one task_id db.events event ∙ rw (eq_refl task_id, listed) refl in
      (
        record db { tasks = tasks; events = es },
        rw (missing, unused, early, listed, stored, one_row) refl,
        write-Holds (limit + 1) db s task_id r es (Holds-later limit db s v)
            (0, (refl, tt), omega arith, omega arith) after,
      )
