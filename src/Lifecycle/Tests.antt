-- ===== src/Lifecycle/Tests.antt =====
-- Runs of the lifecycle store, and its theorems at concrete inputs.
use iicp_client_rust.Base.{
  ℕ, String, ◌≡◌, refl, sym, ap, map, none, last, true, false, List, [], ◌∷◌, some, ok, err, inr,
  arith, eq_iff,
}
use iicp_client_rust.Base.Words.{pos}
use iicp_client_rust.Base.Dict.{get, insert}
use iicp_client_rust.Lifecycle.Types.{LifecycleRecord, conflict}
use iicp_client_rust.Lifecycle.States.{terminal, legal_transition, is_known}
use iicp_client_rust.Lifecycle.Store.{
  LifecycleStore, submit, transition, cancel, events_after, accepted_record, next_event,
  push_bounded,
}
use iicp_client_rust.Lifecycle.Store.Invariant.{
  IsValid, submits, moves, Reach, here, next, Reach-IsValid,
}
use iicp_client_rust.Lifecycle.Store.Binding.{IsBound, Reach-IsBound, submit_other}
use iicp_client_rust.Lifecycle.Store.Repeats.{submit_again}
use iicp_client_rust.Lifecycle.Store.Transitions.{
  Evolves, Step-Evolves, cancel_live, cancel_finished,
}
use iicp_client_rust.Lifecycle.Store.Replay.{owed, events_after-owed}
use iicp_client_rust.Lifecycle.Store.Snapshot.{snapshot, restore, restore-snapshot}

-- An event's detail is a text here.
abbrev blank : LifecycleStore String
blank = record { records = []; max_events = 2; terminal_status_ttl_ms = 1000 }

abbrev task_record : LifecycleRecord String
task_record = accepted_record "" "t1" "k1" "d1" 5

abbrev one_task : LifecycleStore String
one_task = record blank { records = ("t1", task_record) ∷ [] }

one_task_lem : submit "" blank 5 "t1" "k1" "d1" ≡ (one_task, ok (task_record, true))
unfolding submit get insert
one_task_lem = refl

blank-IsValid : IsValid blank
blank-IsValid = record { room = omega arith; distinct = tt; sound = tt }

one_task-IsValid : IsValid one_task
unfolding get is_known terminal
one_task-IsValid = record {
  room = omega arith;
  distinct = (refl, tt);
  sound = ((refl, refl, omega arith, (refl, refl, refl)), tt);
}

abbrev running_task : LifecycleStore String
running_task = (transition one_task 6 "t1" "running" "").0

history : Reach blank running_task
history =
    next (next here (submits "" 5 "t1" "k1" "d1" (ap (λ o. o.0) (sym one_task_lem))))
      (moves 6 "t1" "running" "" refl)

blank-IsBound : IsBound blank.records
unfolding get
blank-IsBound j k r q hj hk same = absurd (ground arith)

Reach-IsValid_example : IsValid running_task
Reach-IsValid_example = Reach-IsValid history blank-IsValid

Reach-IsBound_example : IsBound running_task.records
Reach-IsBound_example = Reach-IsBound history blank-IsBound

-- The task has moved on and was read since.
submit_again_example :
    (q : LifecycleRecord String) × (get "t1" running_task.records ≡ some q)
    × (submit "" running_task 9 "t1" "k1" "d1" ≡ (running_task, ok (q, false)))
unfolding transition get insert push_bounded terminal legal_transition
submit_again_example =
    submit_again "" blank one_task running_task 5 9 "t1" "k1" "d1" task_record true one_task_lem
      (next here (moves 6 "t1" "running" "" refl)) (tt, refl)

one_task-IsBound : IsBound one_task.records
one_task-IsBound =
    Reach-IsBound (next here (submits "" 5 "t1" "k1" "d1" (ap (λ o. o.0) (sym one_task_lem))))
      blank-IsBound

submit_other_example :
    (message : String) × (submit "" one_task 9 "t2" "k1" "d1" ≡ (one_task, err (conflict message)))
submit_other_example =
    submit_other "" blank one_task 5 9 "t1" "k1" "d1" task_record true "t2" "k1" "d1" one_task_lem
      one_task-IsBound (inr refl) (λ h. ground (arith, h.0, eq_iff "t2" "t1"))

Step-Evolves_example : Evolves task_record (get "t1" running_task.records)
Step-Evolves_example =
    Step-Evolves "t1" task_record one_task-IsValid (moves 6 "t1" "running" "" refl)
      (unfold get in refl)

cancel_live_example :
    (t : LifecycleStore String) × (q : LifecycleRecord String) × (cancel "cancelled"
        (λ _ u. u)
        one_task
        7
        8
        9
        "t1"
      ≡ (t, ok q))
    × (get "t1" t.records ≡ some q)
    × (q.state ≡ "cancelled")
    × (last q.events ≡ some (next_event "t1" task_record "cancelled" "cancelled" 8))
cancel_live_example =
    cancel_live "cancelled" one_task 7 8 9 "t1" task_record one_task-IsValid (unfold get in refl)
      (unfold terminal in refl) (omega arith)

abbrev done_record : LifecycleRecord String
done_record = record task_record { state = "completed" }

abbrev done_store : LifecycleStore String
done_store = record blank { records = ("t1", done_record) ∷ [] }

cancel_finished_example :
    cancel "cancelled" (λ _ u. u) done_store 7 8 9 "t1" ≡ (done_store, ok done_record)
cancel_finished_example =
    cancel_finished "cancelled" done_store 7 8 9 "t1" done_record (unfold get in refl)
      (unfold terminal in refl) (omega arith) (omega arith)

events_after-owed_example :
    events_after one_task 7 "t1" (pos 0) ≡ (one_task, owed task_record (pos 0))
events_after-owed_example =
    events_after-owed one_task 7 "t1" (pos 0) task_record one_task-IsValid (unfold get in refl)
      (unfold terminal in refl) (omega arith) (omega arith)

restore-snapshot_example :
    restore blank (snapshot one_task) ≡ (record blank { records = one_task.records }, ok tt)
restore-snapshot_example = restore-snapshot one_task blank one_task-IsValid (omega arith)

abbrev last_sequences : LifecycleStore String → List ℕ
last_sequences s = elim (get "t1" s.records) [ none ↦ [] | some r ↦ map (λ e. e.sequence) r.events ]

-- After two transitions only the two newest events are retained.
trimmed : last_sequences (transition running_task 7 "t1" "streaming" "").0 ≡ 1 ∷ 2 ∷ []
unfolding get insert transition push_bounded legal_transition
trimmed = refl
