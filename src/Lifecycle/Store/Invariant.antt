-- ===== src/Lifecycle/Store/Invariant.antt =====
-- What holds of the store of src/service_lifecycle.rs between two calls.
use iicp_client_rust.Base.{ℕ, ◌≤◌, String, ◌≡◌, refl, true, some, arith, All, length}
use iicp_client_rust.Base.Dict.{
  get, insert, IsDistinct, insert-IsDistinct, remove-IsDistinct, All-insert, All-remove, All-get,
}
use iicp_client_rust.Lifecycle.Types.{LifecycleRecord}
use iicp_client_rust.Lifecycle.States.{
  terminal, is_known, legal_transition, legal_transition-is_known,
}
use iicp_client_rust.Lifecycle.Store.{
  LifecycleStore, new, submit, status, transition, canonical_state, next_event, advance,
  accepted_record,
}
use iicp_client_rust.Lifecycle.Store.Cases.{status_cases, submit_cases, transition_cases}
use iicp_client_rust.Lifecycle.Store.History.{
  IsHistory, push_bounded-IsHistory, length-push_bounded-le,
}

-- A record stands under its own identifier, is in a state that the profile knows, and retains a
-- bounded history that ends in that state.
abbrev pub IsSound : {V : Type 0} → ℕ → String × LifecycleRecord V → Type 0
IsSound max_events (k, r) =
    (r.task_id ≡ k)
    × (is_known r.state ≡ true)
    × (length r.events ≤ max_events)
    × IsHistory k r.state r.events

pub record IsValid {V : Type 0} (s : LifecycleStore V) : Type 0 where
  pub room : 2 ≤ s.max_events
  pub distinct : IsDistinct s.records
  pub sound : All (IsSound s.max_events) s.records

module _ {V : Type 0} where
  pub new-IsValid : (max_events ttl : ℕ) → IsValid {V = V} (new max_events ttl)
  unfolding new
  new-IsValid max_events ttl = record { room = omega arith; distinct = tt; sound = tt }

  pub status-IsValid :
      (s : LifecycleStore V) (now : ℕ) (task_id : String)
      → IsValid s
      → IsValid (status s now task_id).0
  status-IsValid s now task_id v =
      status_cases (λ o. IsValid o.0) s now task_id (λ _. v)
        (λ r _ _. record {
          room = v.room;
          distinct = remove-IsDistinct task_id s.records v.distinct;
          sound = All-remove (IsSound s.max_events) task_id s.records v.sound;
        })
        (λ _ _ _. v)

  -- A write of a sound record keeps the store valid.
  write-IsValid :
      (s : LifecycleStore V) (task_id : String) (r : LifecycleRecord V)
      → IsValid s
      → IsSound s.max_events (task_id, r)
      → IsValid (record s { records = insert task_id r s.records })
  write-IsValid s task_id r v h = record {
    room = v.room;
    distinct = insert-IsDistinct task_id r s.records v.distinct;
    sound = All-insert (IsSound s.max_events) task_id r s.records h v.sound;
  }

  accepted_record-IsSound :
      (max_events : ℕ) (null : V) (task_id key digest : String) (now : ℕ)
      → 2 ≤ max_events
      → IsSound max_events (task_id, accepted_record null task_id key digest now)
  unfolding is_known terminal
  accepted_record-IsSound max_events null task_id key digest now h =
      (refl, refl, omega arith, (refl, refl, refl))

  pub submit-IsValid :
      (null : V) (s : LifecycleStore V) (now : ℕ) (task_id key digest : String)
      → IsValid s
      → IsValid (submit null s now task_id key digest).0
  submit-IsValid null s now task_id key digest v =
      submit_cases (λ o. IsValid o.0) null s now task_id key digest (λ _ _ _. v) (λ _ _ _ _. v)
        (λ _ _ _. v)
        (λ _ _.
          write-IsValid s task_id _ v
            (accepted_record-IsSound s.max_events null task_id key digest now v.room))

  advance-IsSound :
      (s : LifecycleStore V) (now : ℕ) (task_id state : String) (detail : V) (r : LifecycleRecord V)
      → IsValid s
      → get task_id s.records ≡ some r
      → legal_transition r.state state ≡ true
      → IsSound s.max_events
          (task_id, advance s.max_events r (next_event task_id r state detail now))
  advance-IsSound s now task_id state detail r v found edge =
      let before = All-get (IsSound s.max_events) task_id s.records v.sound found in
      (
        before.0,
        legal_transition-is_known r.state state edge,
        length-push_bounded-le s.max_events r.events _,
        push_bounded-IsHistory s.max_events task_id r.state r.events
            (next_event task_id r state detail now) (omega (arith, v.room)) edge refl refl refl
            before.3,
      )

  pub transition-IsValid :
      (s : LifecycleStore V) (now : ℕ) (task_id requested : String) (detail : V)
      → IsValid s
      → IsValid (transition s now task_id requested detail).0
  transition-IsValid s now task_id requested detail v =
      transition_cases (λ o. IsValid o.0) s now task_id requested detail (λ _. v) (λ _ _ _ _. v)
        (λ r found edge.
          write-IsValid s task_id _ v
            (advance-IsSound s now task_id (canonical_state requested) detail r v found edge))

  -- One call by one of the tasks that share the store. A cancellation is three of them.
  pub data Step (s t : LifecycleStore V) : Type 0 where
    submits :
        (null : V) (now : ℕ) (task_id key digest : String)
        → t ≡ (submit null s now task_id key digest).0
        → Step s t
    reads : (now : ℕ) (task_id : String) → t ≡ (status s now task_id).0 → Step s t
    moves :
        (now : ℕ) (task_id requested : String) (detail : V)
        → t ≡ (transition s now task_id requested detail).0
        → Step s t

  pub data Reach (s : LifecycleStore V) : LifecycleStore V → Type 0 where
    here : Reach s s
    next : {t u : LifecycleStore V} → Reach s t → Step t u → Reach s u

  pub Step-IsValid : {s t : LifecycleStore V} → Step s t → IsValid s → IsValid t
  Step-IsValid {s} (submits null now task_id key digest e) v =
      rw e (submit-IsValid null s now task_id key digest v)
  Step-IsValid {s} (reads now task_id e) v = rw e (status-IsValid s now task_id v)
  Step-IsValid {s} (moves now task_id requested detail e) v =
      rw e (transition-IsValid s now task_id requested detail v)

  -- In every store that any interleaving of calls reaches from a valid one, all records are sound.
  pub Reach-IsValid : {s t : LifecycleStore V} → Reach s t → IsValid s → IsValid t
  Reach-IsValid here v = v
  Reach-IsValid (next r st) v = Step-IsValid st (Reach-IsValid r v)
