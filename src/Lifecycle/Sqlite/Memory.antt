-- ===== src/Lifecycle/Sqlite/Memory.antt =====
-- The calls on the store of src/service_lifecycle.rs, whatever the detail of a task's first event.
use iicp_client_rust.Base.{
  ℕ, String, ◌==◌, ◌≡◌, refl, sym, ap, ◌∙◌, true, List, Option, none, some, Result, ok, err, first,
  Bool-cases, Option-cases, inl, inr, any,
}
use iicp_client_rust.Base.Words.{ℤ}
use iicp_client_rust.Base.Dict.{get, insert, All-get, values}
use iicp_client_rust.Lifecycle.Types.{
  LifecycleEvent, LifecycleRecord, LifecycleError, sequence_or_zero,
}
use iicp_client_rust.Lifecycle.States.{legal_transition}
use iicp_client_rust.Lifecycle.Store
use iicp_client_rust.Lifecycle.Store.{
  LifecycleStore, Outcome, submit, status, transition, events_after, replay, advance, next_event,
  canonical_state, look_up, cut_off, push_bounded, forget_expired, is_expired, accepted_record,
  same_submission,
}
use iicp_client_rust.Lifecycle.Store.Invariant.{IsValid, IsSound}
use iicp_client_rust.Lifecycle.Sqlite.Details.{
  with_first, first_events, first_record, first_store, first_outcome, first_created, first_option,
  map_ok, get-first, insert-first, remove-first, any_key-first, first_sequence-first,
  last_sequence-first, push_bounded-first, retain-first, accepted_unreached,
}

module _ {V : Type 0} (d : V) where
  found :
      (s : LifecycleStore V) (task_id : String) (o : Option (LifecycleRecord V))
      → get task_id s.records ≡ o
      → get task_id (first_store d s).records ≡ first_option d o
  found s task_id o e = get-first d task_id s.records ∙ ap (first_option d) e

  written :
      {A : Type 0} (s : LifecycleStore V) (task_id : String) (q r : LifecycleRecord V)
      (result : Result LifecycleError A)
      → q ≡ first_record d r
      → ◌≡◌ {A = Outcome V A}
          (
            record (first_store d s) { records = insert task_id q (first_store d s).records },
            result,
          )
          (first_store d (record s { records = insert task_id r s.records }), result)
  written {A} s task_id q r result same =
      ap {B = Outcome V A} (λ m. (record (first_store d s) { records = m }, result))
        (ap (λ w. insert task_id w (first_store d s).records) same
          ∙ insert-first d task_id r s.records)

  pub submit-first :
      (null : V) (s : LifecycleStore V) (now : ℕ) (task_id key digest : String)
      → submit d (first_store d s) now task_id key digest
        ≡ first_outcome d (first_created d) (submit null s now task_id key digest)
  unfolding submit
  submit-first null s now task_id key digest = elim (Option-cases (get task_id s.records)) [
    | inl e ↦ elim (Bool-cases (any (λ r. r.idempotency_key == key) (values s.records))) [
      | inl used ↦ rw (found s task_id none e, e, submit, any_key-first d key s.records, used) refl
      | inr free ↦
          rw (found s task_id none e, e, submit, any_key-first d key s.records, free)
            (written s task_id _ (accepted_record null task_id key digest now) _ refl)
    ]
    | inr (r, e) ↦ elim (Bool-cases (same_submission r key digest)) [
      | inl same ↦ rw (found s task_id (some r) e, e, submit, same) refl
      | inr other ↦ rw (found s task_id (some r) e, e, submit, other) refl
    ]
  ]

  forget_expired-first :
      (s : LifecycleStore V) (now : ℕ) (task_id : String)
      → forget_expired (first_store d s) now task_id ≡ first_store d (forget_expired s now task_id)
  forget_expired-first s now task_id = elim (Option-cases (get task_id s.records)) [
    | inl e ↦ rw (found s task_id none e, e) refl
    | inr (r, e) ↦ elim (Bool-cases (is_expired s now (some r))) [
      | inl old ↦
          rw (found s task_id (some r) e, e, old)
            (ap (λ m. record (first_store d s) { records = m }) (remove-first d task_id s.records))
      | inr fresh ↦ rw (found s task_id (some r) e, e, fresh) refl
    ]
  ]

  look_up-first :
      (s : LifecycleStore V) (task_id : String)
      → look_up (first_store d s) task_id ≡ first_outcome d (first_record d) (look_up s task_id)
  unfolding look_up
  look_up-first s task_id = elim (Option-cases (get task_id s.records)) [
    | inl e ↦ rw (found s task_id none e, e, look_up) refl
    | inr (r, e) ↦ rw (found s task_id (some r) e, e, look_up) refl
  ]

  pub status-first :
      (s : LifecycleStore V) (now : ℕ) (task_id : String)
      → status (first_store d s) now task_id
        ≡ first_outcome d (first_record d) (status s now task_id)
  unfolding status
  status-first s now task_id =
      ap (λ t. look_up t task_id) (forget_expired-first s now task_id)
      ∙ look_up-first (forget_expired s now task_id) task_id

  -- No edge leads to the state of the first event.
  next_event-first :
      (s : LifecycleStore V) (now : ℕ) (task_id requested : String) (detail : V)
      (r : LifecycleRecord V)
      → IsValid s
      → get task_id s.records ≡ some r
      → legal_transition r.state (canonical_state requested) ≡ true
      → with_first d (next_event task_id r (canonical_state requested) detail now)
        ≡ next_event task_id r (canonical_state requested) detail now
  next_event-first s now task_id requested detail r v e edge =
      let known = (All-get (IsSound s.max_events) task_id s.records v.sound e).1 in
      rw (accepted_unreached r.state (canonical_state requested) known edge) refl

  advance-first :
      (m : ℕ) (r : LifecycleRecord V) (task_id state : String) (detail : V) (now : ℕ)
      → let event = next_event task_id r state detail now in
        with_first d event ≡ event
        → advance m (first_record d r) event ≡ first_record d (advance m r event)
  advance-first m r task_id state detail now same =
      let event = next_event task_id r state detail now in
      ap (λ es. record r { events = es; state = state; updated_at_ms = now })
        (ap (push_bounded m (first_events d r.events)) (sym same)
          ∙ push_bounded-first d m r.events event)

  pub transition-first :
      (s : LifecycleStore V) (now : ℕ) (task_id requested : String) (detail : V)
      → IsValid s
      → transition (first_store d s) now task_id requested detail
        ≡ first_outcome d (λ e. e) (transition s now task_id requested detail)
  unfolding transition
  transition-first s now task_id requested detail v =
      let state = canonical_state requested in
      elim (Option-cases (get task_id s.records)) [
        | inl e ↦ rw (found s task_id none e, e, transition) refl
        | inr (r, e) ↦ elim (Bool-cases (legal_transition r.state state)) [
          | inl edge ↦
              let event = next_event task_id r state detail now in
              let same = next_event-first s now task_id requested detail r v e edge in
              rw (found s task_id (some r) e, e, transition, edge, last_sequence-first d r.events)
                (written s task_id _ (advance s.max_events r event) (ok event)
                  (advance-first s.max_events r task_id state detail now same))
          | inr none_such ↦ rw (found s task_id (some r) e, e, transition, none_such) refl
        ]
      ]

  replay-first :
      (r : LifecycleRecord V) (after : ℤ)
      → replay (first_record d r) after ≡ map_ok (first_events d) (replay r after)
  unfolding replay
  replay-first r after = elim (Bool-cases (cut_off after (sequence_or_zero (first r.events)))) [
    | inl gone ↦ rw (first_sequence-first d r.events, last_sequence-first d r.events, gone) refl
    | inr there ↦
        rw (first_sequence-first d r.events, there) (ap ok (retain-first d after r.events))
  ]

  replayed-first :
      (after : ℤ) (o : Outcome V (LifecycleRecord V))
      → Store.and_then (first_outcome d (first_record d) o) (λ s' r. (s', replay r after))
        ≡ first_outcome d (first_events d) (Store.and_then o (λ s' r. (s', replay r after)))
  replayed-first after (s, ok r) =
      ap {B = Outcome V (List (LifecycleEvent V))} (λ es. (first_store d s, es))
        (replay-first r after)
  replayed-first after (s, err e) = refl

  pub events_after-first :
      (s : LifecycleStore V) (now : ℕ) (task_id : String) (after : ℤ)
      → events_after (first_store d s) now task_id after
        ≡ first_outcome d (first_events d) (events_after s now task_id after)
  unfolding events_after
  events_after-first s now task_id after =
      ap (λ o. Store.and_then o (λ s' r. (s', replay r after))) (status-first s now task_id)
      ∙ replayed-first after (status s now task_id)
