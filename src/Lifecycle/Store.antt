-- ===== src/Lifecycle/Store.antt =====
-- `LifecycleStore` of src/service_lifecycle.rs, the store in memory. Each method takes the store
-- and gives back the new store with its result. The clock, `now_ms`, is an argument of each call, and
-- so is the JSON of an event's detail. `u64` addition wraps, as in a release build.
pub mod Binding
pub mod Cases
pub mod History
pub mod Invariant
pub mod Repeats
pub mod Replay
pub mod Snapshot
pub mod Transitions
use Prim.Native.String.{◌++◌ as append}
use iicp_client_rust.Base.{
  ℕ, suc, ◌+◌, ◌-◌, ◌<◌, max, String, ◌==◌, ◌≡◌, Bool, true, false, not, ◌&&◌, ◌||◌, List, [], ◌∷◌,
  ◌++◌, Option, none, some, Result, ok, err, ltb, leb, eqb, any, if◌then◌else◌, length, take, drop,
  first, retain,
}
use iicp_client_rust.Base.Words.{
  ℤ, pos, negsuc, gtb, as_i64, wrapping_add, saturating_add, saturating_sub,
}
use iicp_client_rust.Base.Dict.{get, insert, remove, values}
use iicp_client_rust.Lifecycle.Types.{
  profile, LifecycleEvent, LifecycleRecord, LifecycleSnapshot, LifecycleError, conflict,
  unknown_task, resume_unavailable, sequence_or_zero, latest_sequence,
}
use iicp_client_rust.Lifecycle.States.{terminal, legal_transition}

pub record LifecycleStore (V : Type 0) : Type 0 where
  pub records : List (String × LifecycleRecord V)
  pub max_events : ℕ
  pub terminal_status_ttl_ms : ℕ

-- A method's new store and its result.
abbrev pub Outcome : Type 0 → Type 0 → Type 0
Outcome V A = LifecycleStore V × Result LifecycleError A

-- The `?` after a method call.
abbrev pub and_then :
    {V A B : Type 0} → Outcome V A → (LifecycleStore V → A → Outcome V B) → Outcome V B
and_then (s, ok a) k = k s a
and_then (s, err e) k = (s, err e)

-- `after_sequence >= 0 && (after_sequence as u64).saturating_add(1) < first`.
abbrev pub cut_off : ℤ → ℕ → Bool
cut_off (pos n) first_sequence = ltb (saturating_add n 1) first_sequence
cut_off (negsuc n) first_sequence = false

abbrev pub canonical_state : String → String
canonical_state requested = if requested == "timed_out" then "expired" else requested

module _ {V : Type 0} where
  unfoldable pub new : ℕ → ℕ → LifecycleStore V
  new max_events ttl = record {
    records = [];
    max_events = max max_events 2;
    terminal_status_ttl_ms = ttl;
  }

  -- The first event of a task, and the record that holds it.
  abbrev pub accepted_event : V → String → ℕ → LifecycleEvent V
  accepted_event null task_id now = record {
    task_id = task_id;
    sequence = 0;
    state = "accepted";
    is_final = false;
    observed_at_ms = now;
    detail = null;
  }

  abbrev pub accepted_record : V → String → String → String → ℕ → LifecycleRecord V
  accepted_record null task_id key digest now = record {
    task_id = task_id;
    idempotency_key = key;
    request_digest = digest;
    state = "accepted";
    events = accepted_event null task_id now ∷ [];
    updated_at_ms = now;
  }

  abbrev pub same_submission : LifecycleRecord V → String → String → Bool
  same_submission r key digest = r.idempotency_key == key && r.request_digest == digest

  -- `null` is `Value::Null`.
  unfoldable pub submit :
      V → LifecycleStore V → ℕ → String → String → String → Outcome V (LifecycleRecord V × Bool)
  submit null s now task_id key digest = elim (get task_id s.records) [
    | some existing ↦
        if same_submission existing key digest
        then (s, ok (existing, false))
        else (s, err (conflict "task or idempotency identifier reused for different content"))
    | none ↦
        if any (λ r. r.idempotency_key == key) (values s.records)
        then (s, err (conflict "idempotency identifier reused with a different task identifier"))
        else (
          record s {
            records = insert task_id (accepted_record null task_id key digest now) s.records;
          },
          ok (accepted_record null task_id key digest now, true),
        )
  ]

  abbrev pub is_expired : LifecycleStore V → ℕ → Option (LifecycleRecord V) → Bool
  is_expired s now none = false
  is_expired s now (some r) =
      terminal r.state && ltb s.terminal_status_ttl_ms (saturating_sub now r.updated_at_ms)

  -- A finished task that is older than the limit is forgotten.
  abbrev pub forget_expired : LifecycleStore V → ℕ → String → LifecycleStore V
  forget_expired s now task_id =
      if is_expired s now (get task_id s.records)
      then record s { records = remove task_id s.records }
      else s

  -- `records.get(task_id).cloned().ok_or(LifecycleError::UnknownTask)`.
  unfoldable pub look_up : LifecycleStore V → String → Outcome V (LifecycleRecord V)
  look_up s task_id = elim (get task_id s.records) [
    | none ↦ (s, err unknown_task)
    | some r ↦ (s, ok r)
  ]

  unfoldable pub status : LifecycleStore V → ℕ → String → Outcome V (LifecycleRecord V)
  unfolding look_up
  status s now task_id = look_up (forget_expired s now task_id) task_id

  abbrev pub next_event : String → LifecycleRecord V → String → V → ℕ → LifecycleEvent V
  next_event task_id r state detail now = record {
    task_id = task_id;
    sequence = wrapping_add (latest_sequence r) 1;
    state = state;
    is_final = terminal state;
    observed_at_ms = now;
    detail = detail;
  }

  -- `events.push(event)`, and the oldest are dropped while there are more than `max_events`.
  unfoldable pub push_bounded :
      ℕ → List (LifecycleEvent V) → LifecycleEvent V → List (LifecycleEvent V)
  push_bounded max_events events e =
      let all_events = events ++ e ∷ [] in
      if ltb max_events (length all_events)
      then drop (length all_events - max_events) all_events
      else all_events

  abbrev pub advance : ℕ → LifecycleRecord V → LifecycleEvent V → LifecycleRecord V
  advance max_events r event = record r {
    events = push_bounded max_events r.events event;
    state = event.state;
    updated_at_ms = event.observed_at_ms;
  }

  unfoldable pub transition :
      LifecycleStore V → ℕ → String → String → V → Outcome V (LifecycleEvent V)
  transition s now task_id requested detail = elim (get task_id s.records) [
    | none ↦ (s, err unknown_task)
    | some r ↦
        let state = canonical_state requested in
        if legal_transition r.state state
        then (let event = next_event task_id r state detail now in
            (
              record s { records = insert task_id (advance s.max_events r event) s.records },
              ok event,
            ))
        else (
          s,
          err (conflict (append "illegal transition " (append r.state (append " -> " state)))),
        )
  ]

  -- `others` is what other tasks do to the store between the three locks that `cancel` takes, the
  -- first at `now`, the next two at later times.
  unfoldable pub cancel :
      V
      → (ℕ → LifecycleStore V → LifecycleStore V)
      → LifecycleStore V
      → ℕ
      → ℕ
      → ℕ
      → String
      → Outcome V (LifecycleRecord V)
  cancel detail others s now later last task_id = and_then (status s now task_id) λ s₁ current.
      if terminal current.state
      then status (others 0 s₁) last task_id
      else (and_then (transition (others 0 s₁) later task_id "cancelled" detail)
          λ s₂ event. status (others 1 s₂) last task_id)

  -- The code of `events_after` below the status call.
  unfoldable pub replay : LifecycleRecord V → ℤ → Result LifecycleError (List (LifecycleEvent V))
  replay r after =
      if cut_off after (sequence_or_zero (first r.events))
      then err (resume_unavailable r.state (latest_sequence r))
      else ok (retain (λ e. gtb (as_i64 e.sequence) after) r.events)

  unfoldable pub events_after :
      LifecycleStore V → ℕ → String → ℤ → Outcome V (List (LifecycleEvent V))
  events_after s now task_id after = and_then (status s now task_id) λ s' r. (s', replay r after)

  unfoldable pub events_after_bounded :
      LifecycleStore V → ℕ → String → ℤ → ℕ → Outcome V (List (LifecycleEvent V))
  events_after_bounded s now task_id after limit =
      and_then (events_after s now task_id after) λ s' events. (s', ok (take (max limit 1) events))
