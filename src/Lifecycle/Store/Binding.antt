-- ===== src/Lifecycle/Store/Binding.antt =====
-- The binding of tasks to idempotency keys and request digests in src/service_lifecycle.rs.
use iicp_client_rust.Base.{
  ℕ, String, ◌==◌, eq_iff, eq_refl, ◌≡◌, refl, Bool, true, false, List, some, arith, ok, err, ◌⊎◌,
}
use iicp_client_rust.Base.Dict.{
  get, insert, remove, get_of_remove, get_of_insert, get-insert_self, any-values,
}
use iicp_client_rust.Lifecycle.Types.{LifecycleRecord, conflict}
use iicp_client_rust.Lifecycle.Store.{LifecycleStore, submit, accepted_record, same_submission}
use iicp_client_rust.Lifecycle.Store.Cases.{status_cases, submit_cases, transition_cases}
use iicp_client_rust.Lifecycle.Store.Invariant.{Step, submits, reads, moves, Reach, here, next}

-- No idempotency key stands for two tasks.
abbrev pub IsBound : {V : Type 0} → List (String × LifecycleRecord V) → Type 0
IsBound {V} m =
    (j k : String) (r q : LifecycleRecord V)
    → get j m ≡ some r
    → get k m ≡ some q
    → r.idempotency_key ≡ q.idempotency_key
    → j ≡ k

module _ {V : Type 0} where
  remove-IsBound :
      (t : String) (m : List (String × LifecycleRecord V)) → IsBound m → IsBound (remove t m)
  remove-IsBound t m b j k r q hj hk =
      b j k r q (get_of_remove t j m r hj) (get_of_remove t k m q hk)

  insert-IsBound :
      (t : String) (new : LifecycleRecord V) (m : List (String × LifecycleRecord V))
      → ((k : String) (q : LifecycleRecord V)
          → get k m ≡ some q
          → q.idempotency_key ≡ new.idempotency_key
          → k ≡ t)
      → IsBound m
      → IsBound (insert t new m)
  insert-IsBound t new m own b j k r q hj hk same = ground (
    arith,
    get_of_insert t j new m r hj,
    get_of_insert t k new m q hk,
    own j r,
    own k q,
    b j k r q,
  )

  -- A new task's key is no other task's.
  unused_key :
      (m : List (String × LifecycleRecord V)) (key k t : String) (q : LifecycleRecord V)
      → (q.idempotency_key == key) ≡ false
      → q.idempotency_key ≡ key
      → k ≡ t
  unused_key m key k t q free same = ground (arith, eq_iff q.idempotency_key key)

  pub Step-IsBound : {s t : LifecycleStore V} → Step s t → IsBound s.records → IsBound t.records
  Step-IsBound {s} (submits null now task_id key digest e) b = rw e (
      submit_cases (λ o. IsBound o.0.records) null s now task_id key digest (λ _ _ _. b)
        (λ _ _ _ _. b) (λ _ _ _. b)
        (λ _ free.
          insert-IsBound task_id _ s.records
            (λ k q found.
              unused_key s.records key k task_id q
                (any-values (λ r. r.idempotency_key == key) k s.records free found))
            b))
  Step-IsBound {s} (reads now task_id e) b = rw e (
      status_cases (λ o. IsBound o.0.records) s now task_id (λ _. b)
        (λ _ _ _. remove-IsBound task_id s.records b) (λ _ _ _. b))
  Step-IsBound {s} (moves now task_id requested detail e) b = rw e (
      transition_cases (λ o. IsBound o.0.records) s now task_id requested detail (λ _. b)
        (λ _ _ _ _. b)
        (λ r found _.
          insert-IsBound task_id _ s.records (λ k q found' same. b k task_id q r found' found same)
            b))

  -- No interleaving of calls binds one idempotency key to two tasks.
  pub Reach-IsBound : {s t : LifecycleStore V} → Reach s t → IsBound s.records → IsBound t.records
  Reach-IsBound here b = b
  Reach-IsBound (next r st) b = Step-IsBound st (Reach-IsBound r b)

  pub submitted-same :
      (null : V) (s t : LifecycleStore V) (now : ℕ) (task_id key digest : String)
      (r : LifecycleRecord V) (created : Bool)
      → submit null s now task_id key digest ≡ (t, ok (r, created))
      → (get task_id t.records ≡ some r) × (same_submission r key digest ≡ true)
  submitted-same null s t now task_id key digest r created =
      submit_cases
        (λ o.
          o ≡ (t, ok (r, created))
          → (get task_id t.records ≡ some r) × (same_submission r key digest ≡ true))
        null s now task_id key digest (λ q found same e. ground arith)
        (λ q message found other e. ground arith) (λ message absent used e. ground arith)
        (λ absent free e. ground (
          arith,
          get-insert_self task_id (accepted_record null task_id key digest now) s.records,
          eq_refl key,
          eq_refl digest,
        ))

  -- The task or the key of an accepted submission with any other content is refused, and the store is
  -- unchanged.
  pub submit_other :
      (null : V) (s t : LifecycleStore V) (now later : ℕ) (task_id key digest : String)
      (r : LifecycleRecord V) (created : Bool) (task_id' key' digest' : String)
      → submit null s now task_id key digest ≡ (t, ok (r, created))
      → IsBound t.records
      → (task_id' ≡ task_id) ⊎ (key' ≡ key)
      → ¬ ((task_id' ≡ task_id) × (key' ≡ key) × (digest' ≡ digest))
      → (message : String) × (submit null t later task_id' key' digest'
          ≡ (t, err (conflict message)))
  submit_other null s t now later task_id key digest r created task_id' key' digest' h b shared
        differs =
      let (found, same) = submitted-same null s t now task_id key digest r created h in
      submit_cases (λ o. (message : String) × (o ≡ (t, err (conflict message)))) null t later
        task_id' key' digest'
        (λ q found' same'. absurd (
          ground (
            arith,
            eq_iff r.idempotency_key key,
            eq_iff r.request_digest digest,
            eq_iff q.idempotency_key key',
            eq_iff q.request_digest digest',
            b task_id' task_id q r found' found,
            differs,
          )))
        (λ q message _ _. (message, refl)) (λ message _ _. (message, refl))
        (λ absent free. absurd (
          ground (
            arith,
            eq_iff r.idempotency_key key,
            eq_iff r.idempotency_key key',
            any-values (λ (q : LifecycleRecord V). q.idempotency_key == key') task_id t.records free
                found,
          )))
