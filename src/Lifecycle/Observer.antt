-- ===== src/Lifecycle/Observer.antt =====
-- `BoundedObserverBuffer` of src/service_lifecycle.rs. The fields of `ObserverState` stand beside the
-- buffer's limits. The set of observers is a map to `Unit`.
pub mod Log
pub mod Polls
use iicp_client_rust.Base.{
  ℕ, max, String, Bool, true, false, not, ◌&&◌, List, [], ◌∷◌, ◌++◌, Option, none, some, Result, ok,
  err, ltb, leb, length, first, last, retain, if◌then◌else◌,
}
use iicp_client_rust.Base.Words.{saturating_add}
use iicp_client_rust.Base.Dict.{insert, remove, contains_key}
use iicp_client_rust.Lifecycle.Types.{LifecycleEvent, LifecycleError, conflict, sequence_or_zero}

pub record ObserverLagged : Type 0 where
  pub earliest_available : ℕ
  pub latest_sequence : ℕ

pub record BoundedObserverBuffer (V : Type 0) : Type 0 where
  pub events : List (LifecycleEvent V)
  pub observers : List (String × Unit {0})
  pub closed : Bool
  pub capacity : ℕ
  pub max_observers : ℕ

module _ {V : Type 0} where
  unfoldable pub new : ℕ → ℕ → BoundedObserverBuffer V
  new capacity max_observers = record {
    events = [];
    observers = [];
    closed = false;
    capacity = max capacity 1;
    max_observers = max max_observers 1;
  }

  unfoldable pub subscribe :
      BoundedObserverBuffer V → String → BoundedObserverBuffer V × Result LifecycleError (Unit {0})
  subscribe b id =
      if not (contains_key id b.observers) && leb b.max_observers (length b.observers)
      then (b, err (conflict "observer capacity exhausted"))
      else (record b { observers = insert id tt b.observers }, ok tt)

  unfoldable pub disconnect : BoundedObserverBuffer V → String → BoundedObserverBuffer V
  disconnect b id = record b { observers = remove id b.observers }

  -- `while state.events.len() > self.capacity { state.events.pop_front(); }`
  unfoldable pub trim : ℕ → List (LifecycleEvent V) → List (LifecycleEvent V)
  trim capacity [] = []
  trim capacity (e ∷ es) =
      let rest = trim capacity es in if ltb capacity (length (e ∷ es)) then rest else e ∷ es

  -- Whether the last event stands at or after the new one.
  abbrev pub is_stale : Option (LifecycleEvent V) → LifecycleEvent V → Bool
  is_stale none e = false
  is_stale (some l) e = leb e.sequence l.sequence

  unfoldable pub publish :
      BoundedObserverBuffer V
      → LifecycleEvent V
      → BoundedObserverBuffer V × Result LifecycleError (Unit {0})
  unfolding trim
  publish b e =
      if is_stale (last b.events) e
      then (b, err (conflict "observer sequence must increase"))
      else (record b { closed = e.is_final; events = trim b.capacity (b.events ++ e ∷ []) }, ok tt)

  unfoldable pub poll :
      BoundedObserverBuffer V → ℕ → Result ObserverLagged (List (LifecycleEvent V))
  poll b after = elim (first b.events) [
    | none ↦ ok (retain (λ e. ltb after e.sequence) b.events)
    | some f ↦
        if ltb (saturating_add after 1) f.sequence
        then err (record {
          earliest_available = f.sequence;
          latest_sequence = sequence_or_zero (last b.events);
        })
        else ok (retain (λ e. ltb after e.sequence) b.events)
  ]

  unfoldable pub observer_count : BoundedObserverBuffer V → ℕ
  observer_count b = length b.observers

  unfoldable pub is_closed : BoundedObserverBuffer V → Bool
  is_closed b = b.closed
