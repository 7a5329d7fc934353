-- ===== src/Lifecycle/Store/Transitions.antt =====
-- `transition` and `cancel` of src/service_lifecycle.rs: how a record evolves, and how it ends.
use iicp_client_rust.Base.{
  ℕ, ◌+◌, ◌≤◌, String, eq_iff, ◌≡◌, refl, true, false, List, [], ◌∷◌, ◌++◌, Option, none, some, ◌⊎◌,
  inl, inr, arith, ok, last, length, ltb, ltb→lt, Bool-cases, String-cases, length-append,
  last-append_one, last-drop, ◌∙◌,
}
use iicp_client_rust.Base.Words.{wrapping_add}
use iicp_client_rust.Base.Dict.{
  get, insert, remove, get-remove, get-insert, get-insert_self, All-get,
}
use iicp_client_rust.Lifecycle.Types.{LifecycleEvent, LifecycleRecord, latest_sequence}
use iicp_client_rust.Lifecycle.States.{
  terminal, legal_transition, terminal-of_edge, legal_transition-cancelled,
}
use iicp_client_rust.Lifecycle.Store.{
  LifecycleStore, status, transition, cancel, push_bounded, canonical_state, next_event, advance,
  is_expired,
}
use iicp_client_rust.Lifecycle.Store.Cases.{status_cases, submit_cases, transition_cases}
use iicp_client_rust.Lifecycle.Store.Invariant.{IsValid, IsSound, Step, submits, reads, moves}

-- What one call may make of a record: nothing, the next state of the task with the next sequence,
-- or, of a finished task, no record at all.
abbrev pub Evolves : {V : Type 0} → LifecycleRecord V → Option (LifecycleRecord V) → Type 0
Evolves r none = terminal r.state ≡ true
Evolves r (some q) =
    (q ≡ r)
    ⊎ ((terminal r.state ≡ false)
        × (legal_transition r.state q.state ≡ true)
        × (q.task_id ≡ r.task_id)
        × (q.idempotency_key ≡ r.idempotency_key)
        × (q.request_digest ≡ r.request_digest)
        × (latest_sequence q ≡ wrapping_add (latest_sequence r) 1))

module _ {V : Type 0} where
  pub last-push_bounded :
      (m : ℕ) (es : List (LifecycleEvent V)) (e : LifecycleEvent V)
      → 1 ≤ m
      → last (push_bounded m es e) ≡ some e
  unfolding push_bounded
  last-push_bounded m es e pos = elim (Bool-cases (ltb m (length (es ++ e ∷ [])))) [
    | inl over ↦ rw over (
        last-drop _ (es ++ e ∷ []) (omega (arith, ltb→lt _ _ over, length-append es (e ∷ [])))
        ∙ last-append_one es e)
    | inr fits ↦ rw fits (last-append_one es e)
  ]

  submitted-Evolves :
      (m : List (String × LifecycleRecord V)) (k t : String) (r new : LifecycleRecord V)
      → get k m ≡ some r
      → get t m ≡ none
      → Evolves r (get k (insert t new m))
  submitted-Evolves m k t r new found absent = elim (String-cases t k) [
    | inl e ↦ absurd (ground arith)
    | inr d ↦ rw (get-insert t k new m, d, found) (inl refl)
  ]

  removed-Evolves :
      (m : List (String × LifecycleRecord V)) (k t : String) (r q : LifecycleRecord V)
      → get k m ≡ some r
      → get t m ≡ some q
      → terminal q.state ≡ true
      → Evolves r (get k (remove t m))
  removed-Evolves m k t r q found there done = ground (arith, get-remove t k m, eq_iff t k)

  advanced-Evolves :
      (s : LifecycleStore V) (k t state : String) (r q : LifecycleRecord V) (now : ℕ) (detail : V)
      → IsValid s
      → get k s.records ≡ some r
      → get t s.records ≡ some q
      → legal_transition q.state state ≡ true
      → Evolves r
          (get k (insert t (advance s.max_events q (next_event t q state detail now)) s.records))
  advanced-Evolves s k t state r q now detail v found there edge = ground (
    arith,
    get-insert t k (advance s.max_events q (next_event t q state detail now)) s.records,
    eq_iff t k,
    terminal-of_edge q.state state edge,
    last-push_bounded s.max_events q.events (next_event t q state detail now)
        (omega (arith, v.room)),
  )

  -- Whatever any task does to the store, each record that is there stays as it is, goes along one
  -- edge, or is forgotten after its end.
  pub Step-Evolves :
      {s t : LifecycleStore V} (k : String) (r : LifecycleRecord V)
      → IsValid s
      → Step s t
      → get k s.records ≡ some r
      → Evolves r (get k t.records)
  Step-Evolves {s} k r v (submits null now task_id key digest e) found =
      let kept : Evolves r (get k s.records) = rw found (inl refl) in
      rw e (
        submit_cases (λ o. Evolves r (get k o.0.records)) null s now task_id key digest
          (λ _ _ _. kept) (λ _ _ _ _. kept) (λ _ _ _. kept)
          (λ absent _. submitted-Evolves s.records k task_id r _ found absent))
  Step-Evolves {s} k r v (reads now task_id e) found =
      let kept : Evolves r (get k s.records) = rw found (inl refl) in
      rw e (
        status_cases (λ o. Evolves r (get k o.0.records)) s now task_id (λ _. kept)
          (λ q there old. removed-Evolves s.records k task_id r q found there (ground arith))
          (λ _ _ _. kept))
  Step-Evolves {s} k r v (moves now task_id requested detail e) found =
      let kept : Evolves r (get k s.records) = rw found (inl refl) in
      rw e (
        transition_cases (λ o. Evolves r (get k o.0.records)) s now task_id requested detail
          (λ _. kept) (λ _ _ _ _. kept)
          (λ q there edge.
            advanced-Evolves s k task_id (canonical_state requested) r q now detail v found there
              edge))

  pub status_found :
      (s : LifecycleStore V) (now : ℕ) (task_id : String) (r : LifecycleRecord V)
      → get task_id s.records ≡ some r
      → is_expired s now (some r) ≡ false
      → status s now task_id ≡ (s, ok r)
  status_found s now task_id r found fresh =
      status_cases (λ o. o ≡ (s, ok r)) s now task_id (λ absent. ground arith)
        (λ q there old. ground arith) (λ q there young. ground arith)

  -- The store after `task_id` was moved to a state that its record can go to.
  abbrev moved : LifecycleStore V → ℕ → String → LifecycleRecord V → String → V → LifecycleStore V
  moved s now task_id r state detail = record s {
    records =
        insert task_id (advance s.max_events r (next_event task_id r state detail now)) s.records;
  }

  transition_found :
      (s : LifecycleStore V) (now : ℕ) (task_id state : String) (detail : V) (r : LifecycleRecord V)
      → get task_id s.records ≡ some r
      → canonical_state state ≡ state
      → legal_transition r.state state ≡ true
      → transition s now task_id state detail
        ≡ (moved s now task_id r state detail, ok (next_event task_id r state detail now))
  unfolding transition
  transition_found s now task_id state detail r found same edge = rw (found, transition, same, edge)

  -- An unfinished task that nobody else touches meanwhile is cancelled: the record that is answered
  -- is the stored one, in the state `cancelled`, with a final event of that state.
  pub cancel_live :
      (detail : V) (s : LifecycleStore V) (now later last_read : ℕ) (task_id : String)
      (r : LifecycleRecord V)
      → IsValid s
      → get task_id s.records ≡ some r
      → terminal r.state ≡ false
      → last_read ≤ later + s.terminal_status_ttl_ms
      → (t : LifecycleStore V) × (q : LifecycleRecord V) × (cancel detail
            (λ _ u. u)
            s
            now
            later
            last_read
            task_id
          ≡ (t, ok q))
        × (get task_id t.records ≡ some q)
        × (q.state ≡ "cancelled")
        × (last q.events ≡ some (next_event task_id r "cancelled" detail later))
  unfolding cancel
  cancel_live detail s now later last_read task_id r v found live soon =
      let edge : legal_transition r.state "cancelled" ≡ true =
        legal_transition-cancelled r.state
          (All-get (IsSound s.max_events) task_id s.records v.sound found).1 live in
      let q = advance s.max_events r (next_event task_id r "cancelled" detail later) in
      let t = moved s later task_id r "cancelled" detail in
      let written : get task_id t.records ≡ some q = get-insert_self task_id q s.records in
      (
        t,
        q,
        rw
            (
              status_found s now task_id r found (rw live refl),
              cancel,
              live,
              transition_found s later task_id "cancelled" detail r found refl edge,
            )
            (status_found t last_read task_id q written (ground arith)),
        written,
        refl,
        last-push_bounded s.max_events r.events _ (omega (arith, v.room)),
      )

  -- A finished task is answered as it stands, and nothing is changed.
  pub cancel_finished :
      (detail : V) (s : LifecycleStore V) (now later last_read : ℕ) (task_id : String)
      (r : LifecycleRecord V)
      → get task_id s.records ≡ some r
      → terminal r.state ≡ true
      → now ≤ r.updated_at_ms + s.terminal_status_ttl_ms
      → last_read ≤ r.updated_at_ms + s.terminal_status_ttl_ms
      → cancel detail (λ _ u. u) s now later last_read task_id ≡ (s, ok r)
  unfolding cancel
  cancel_finished detail s now later last_read task_id r found done soon soon' =
      rw (status_found s now task_id r found (ground arith), cancel, done)
        (status_found s last_read task_id r found (ground arith))
