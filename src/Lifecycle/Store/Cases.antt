-- ===== src/Lifecycle/Store/Cases.antt =====
-- The branches of the methods of `LifecycleStore`, src/service_lifecycle.rs: what holds at every end of a
-- method holds of its outcome.
use iicp_client_rust.Base.{
  ℕ, String, ◌==◌, ◌≡◌, refl, sym, subst, true, false, Bool, none, some, inl, inr, ok, err, any,
  Bool-cases, Option-cases,
}
use iicp_client_rust.Base.Dict.{get, insert, remove, values, get-remove_self}
use iicp_client_rust.Lifecycle.Types.{LifecycleEvent, LifecycleRecord, conflict, unknown_task}
use iicp_client_rust.Lifecycle.States.{legal_transition}
use iicp_client_rust.Lifecycle.Store.{
  LifecycleStore, Outcome, look_up, forget_expired, submit, status, transition, canonical_state,
  next_event, advance, is_expired, same_submission, accepted_record,
}

module _ {ℓ} {V : Type 0} where
  pub status_cases :
      (P : Outcome V (LifecycleRecord V) → Type ℓ) (s : LifecycleStore V) (now : ℕ)
      (task_id : String)
      → (get task_id s.records ≡ none → P (s, err unknown_task))
      → ((r : LifecycleRecord V)
          → get task_id s.records ≡ some r
          → is_expired s now (some r) ≡ true
          → P (record s { records = remove task_id s.records }, err unknown_task))
      → ((r : LifecycleRecord V)
          → get task_id s.records ≡ some r
          → is_expired s now (some r) ≡ false
          → P (s, ok r))
      → P (status s now task_id)
  unfolding status
  status_cases P s now task_id absent expired found = elim (Option-cases (get task_id s.records)) [
    | inl e ↦
        let kept : forget_expired s now task_id ≡ s = rw e refl in
        subst (λ t. P (look_up t task_id)) (sym kept) (rw (e, look_up) (absent e))
    | inr (r, e) ↦ elim (Bool-cases (is_expired s now (some r))) [
      | inl old ↦
          let gone : forget_expired s now task_id
              ≡ record s { records = remove task_id s.records } =
            rw (e, old) refl in
          subst (λ t. P (look_up t task_id)) (sym gone)
            (rw (get-remove_self task_id s.records, look_up) (expired r e old))
      | inr fresh ↦
          let kept : forget_expired s now task_id ≡ s = rw (e, fresh) refl in
          subst (λ t. P (look_up t task_id)) (sym kept) (rw (e, look_up) (found r e fresh))
    ]
  ]

  pub transition_cases :
      (P : Outcome V (LifecycleEvent V) → Type ℓ) (s : LifecycleStore V) (now : ℕ)
      (task_id requested : String) (detail : V)
      → (get task_id s.records ≡ none → P (s, err unknown_task))
      → ((r : LifecycleRecord V) (message : String)
          → get task_id s.records ≡ some r
          → legal_transition r.state (canonical_state requested) ≡ false
          → P (s, err (conflict message)))
      → ((r : LifecycleRecord V)
          → get task_id s.records ≡ some r
          → legal_transition r.state (canonical_state requested) ≡ true
          → let event = next_event task_id r (canonical_state requested) detail now in
            P (
              record s { records = insert task_id (advance s.max_events r event) s.records },
              ok event,
            ))
      → P (transition s now task_id requested detail)
  unfolding transition
  transition_cases P s now task_id requested detail absent refused moved =
      elim (Option-cases (get task_id s.records)) [
        | inl e ↦ rw (e, transition) (absent e)
        | inr (r, e) ↦ elim (Bool-cases (legal_transition r.state (canonical_state requested))) [
          | inl edge ↦ rw (e, transition, edge) (moved r e edge)
          | inr none_such ↦ rw (e, transition, none_such) (refused r _ e none_such)
        ]
      ]

  pub submit_cases :
      (P : Outcome V (LifecycleRecord V × Bool) → Type ℓ) (null : V) (s : LifecycleStore V)
      (now : ℕ) (task_id key digest : String)
      → ((r : LifecycleRecord V)
          → get task_id s.records ≡ some r
          → same_submission r key digest ≡ true
          → P (s, ok (r, false)))
      → ((r : LifecycleRecord V) (message : String)
          → get task_id s.records ≡ some r
          → same_submission r key digest ≡ false
          → P (s, err (conflict message)))
      → ((message : String)
          → get task_id s.records ≡ none
          → any (λ r. r.idempotency_key == key) (values s.records) ≡ true
          → P (s, err (conflict message)))
      → (get task_id s.records ≡ none
          → any (λ r. r.idempotency_key == key) (values s.records) ≡ false
          → let r = accepted_record null task_id key digest now in
            P (record s { records = insert task_id r s.records }, ok (r, true)))
      → P (submit null s now task_id key digest)
  unfolding submit
  submit_cases P null s now task_id key digest again differs taken fresh =
      elim (Option-cases (get task_id s.records)) [
        | inl e ↦ elim (Bool-cases (any (λ r. r.idempotency_key == key) (values s.records))) [
          | inl used ↦ rw (e, submit, used) (taken _ e used)
          | inr free ↦ rw (e, submit, free) (fresh e free)
        ]
        | inr (r, e) ↦ elim (Bool-cases (same_submission r key digest)) [
          | inl same ↦ rw (e, submit, same) (again r e same)
          | inr other ↦ rw (e, submit, other) (differs r _ e other)
        ]
      ]
