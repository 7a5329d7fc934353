-- ===== src/Lifecycle/Store/Repeats.antt =====
-- Submissions that are repeated, in src/service_lifecycle.rs.
use iicp_client_rust.Base.{
  ℕ, String, ◌==◌, ◌≡◌, refl, Bool, true, false, List, none, some, arith, ok, ◌⊎◌, inl, inr, subst,
  Bool-cases, String-cases,
}
use iicp_client_rust.Base.Dict.{
  get, insert, remove, get-insert_self, get-insert, get-remove, contains_key,
}
use iicp_client_rust.Lifecycle.Types.{LifecycleRecord}
use iicp_client_rust.Lifecycle.Store.{LifecycleStore, submit, same_submission}
use iicp_client_rust.Lifecycle.Store.Cases.{status_cases, submit_cases, transition_cases}
use iicp_client_rust.Lifecycle.Store.Invariant.{Step, submits, reads, moves, Reach, here, next}
use iicp_client_rust.Lifecycle.Store.Binding.{submitted-same}

-- The store has not forgotten the task after any of the calls.
abbrev pub Keeps : {V : Type 0} {s t : LifecycleStore V} → String → Reach s t → Type 0
Keeps task_id here = Unit
Keeps task_id (next {t = t} {u = u} r st) =
    Keeps task_id r × (contains_key task_id u.records ≡ true)

-- A task is not on record, or with this key and digest.
abbrev Slot : {V : Type 0} → String → String → String → List (String × LifecycleRecord V) → Type 0
Slot {V} task_id key digest m =
    (get task_id m ≡ none)
    ⊎ ((q : LifecycleRecord V) × (get task_id m ≡ some q) × (same_submission q key digest ≡ true))

module _ {V : Type 0} where
  insert-Slot :
      (task_id key digest t : String) (new : LifecycleRecord V)
      (m : List (String × LifecycleRecord V))
      → (t ≡ task_id → same_submission new key digest ≡ true)
      → Slot task_id key digest m
      → Slot task_id key digest (insert t new m)
  insert-Slot task_id key digest t new m own slot = elim (String-cases t task_id) [
    | inl same ↦
        subst (λ k. Slot k key digest (insert t new m)) same
          (inr (new, get-insert_self t new m, own same))
    | inr other ↦
        let kept : get task_id (insert t new m) ≡ get task_id m =
          rw (get-insert t task_id new m, other) refl in
        rw kept slot
  ]

  remove-Slot :
      (task_id key digest t : String) (m : List (String × LifecycleRecord V))
      → Slot task_id key digest m
      → Slot task_id key digest (remove t m)
  remove-Slot task_id key digest t m slot = elim (Bool-cases (t == task_id)) [
    | inl own ↦ inl (rw (get-remove t task_id m, own) refl)
    | inr other ↦
        let kept : get task_id (remove t m) ≡ get task_id m =
          rw (get-remove t task_id m, other) refl in
        rw kept slot
  ]

  -- A call forgets a task, or leaves it its key and its digest.
  Step-Slot :
      {s t : LifecycleStore V} (task_id key digest : String)
      → Step s t
      → (r : LifecycleRecord V) → get task_id s.records ≡ some r
      → same_submission r key digest ≡ true
      → Slot task_id key digest t.records
  Step-Slot {s} task_id key digest (submits null now task_id' key' digest' e) r found same =
      let slot : Slot task_id key digest s.records = inr (r, found, same) in
      rw e (
        submit_cases (λ o. Slot task_id key digest o.0.records) null s now task_id' key' digest'
          (λ _ _ _. slot) (λ _ _ _ _. slot) (λ _ _ _. slot)
          (λ absent _.
            insert-Slot task_id key digest task_id' _ s.records
              (λ own.
                absurd
                  (let absent' = subst (λ k. get k s.records ≡ none) own absent in ground arith))
              slot))
  Step-Slot {s} task_id key digest (reads now task_id' e) r found same =
      let slot : Slot task_id key digest s.records = inr (r, found, same) in
      rw e (
        status_cases (λ o. Slot task_id key digest o.0.records) s now task_id' (λ _. slot)
          (λ _ _ _. remove-Slot task_id key digest task_id' s.records slot) (λ _ _ _. slot))
  Step-Slot {s} task_id key digest (moves now task_id' requested detail e) r found same =
      let slot : Slot task_id key digest s.records = inr (r, found, same) in
      rw e (
        transition_cases (λ o. Slot task_id key digest o.0.records) s now task_id' requested detail
          (λ _. slot) (λ _ _ _ _. slot)
          (λ r' found' _.
            insert-Slot task_id key digest task_id' _ s.records
              (λ own.
                let found'' = subst (λ k. get k s.records ≡ some r') own found' in
                let equal : r ≡ r' = ground arith in
                subst (λ q. same_submission q key digest ≡ true) equal same)
              slot))

  Reach-same :
      {t u : LifecycleStore V} (since : Reach t u) (task_id key digest : String)
      (r : LifecycleRecord V)
      → get task_id t.records ≡ some r
      → same_submission r key digest ≡ true
      → Keeps task_id since
      → (q : LifecycleRecord V) × (get task_id u.records ≡ some q)
        × (same_submission q key digest ≡ true)
  Reach-same here task_id key digest r found same kept = (r, found, same)
  Reach-same (next before st) task_id key digest r found same (kept, has) =
      let (q, stored, still) = Reach-same before task_id key digest r found same kept in
      elim (Step-Slot task_id key digest st q stored still) [
        | inl gone ↦ absurd (ground arith)
        | inr slot ↦ slot
      ]

  -- A submission that was accepted is answered, whenever it is repeated, with what is then the record of its
  -- task, creates nothing and changes nothing, whatever is submitted, read and moved in between; as long as
  -- no call in between makes the store forget the task.
  pub submit_again :
      (null : V) (s t u : LifecycleStore V) (now later : ℕ) (task_id key digest : String)
      (r : LifecycleRecord V) (created : Bool)
      → submit null s now task_id key digest ≡ (t, ok (r, created))
      → (since : Reach t u) → Keeps task_id since
      → (q : LifecycleRecord V) × (get task_id u.records ≡ some q)
        × (submit null u later task_id key digest ≡ (u, ok (q, false)))
  unfolding submit
  submit_again null s t u now later task_id key digest r created h since kept =
      let (found, same) = submitted-same null s t now task_id key digest r created h in
      let (q, stored, still) = Reach-same since task_id key digest r found same kept in
      (q, stored, rw (stored, submit, still))
