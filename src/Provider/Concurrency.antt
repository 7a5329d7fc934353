-- ===== src/Provider/Concurrency.antt =====
-- `ConcurrencyGate` of src/concurrency.rs and the slots of src/cip_policy.rs, which are taken by the same
-- loop: load the count, then compare and exchange, and try again with the value that was met. Each
-- atomic access is one turn of a thread. Counts are `usize` of 64 bits.
pub mod Slots
pub mod Progress
use iicp_client_rust.Base.{
  ℕ, zero, suc, ◌+◌, ◌-◌, ◌%◌, Bool, true, false, List, [], ◌∷◌, leb, eqb, if◌then◌else◌,
}
use iicp_client_rust.Base.Words.{u64_mod}

-- Where a thread stands: before `acquire`, in its loop with the value that it has read, with a slot
-- until its task ends, or sent away with `CapacityExceededError`.
pub data Phase : Type 0 where
  ready : Phase
  loaded : ℕ → Phase
  holding : Phase
  refused : Phase

-- `fetch_sub(1)` wraps.
unfoldable pub fetch_sub_one : ℕ → ℕ
fetch_sub_one active = (active + u64_mod - 1) % u64_mod

-- `compare_exchange(cur, cur + 1)`: the new count, and the value met on failure.
unfoldable pub exchange : ℕ → ℕ → ℕ × Phase
exchange active cur = if eqb active cur then (cur + 1, holding) else (active, loaded active)

-- One turn of the loop of `acquire` at the value `cur`.
unfoldable pub attempt : ℕ → ℕ → ℕ → ℕ × Phase
unfolding exchange
attempt max_concurrent active cur =
    if leb max_concurrent cur then (active, refused) else exchange active cur

-- One atomic access of one thread. A thread that was sent away or has released may come again.
unfoldable pub turn : ℕ → ℕ → Phase → ℕ × Phase
unfolding attempt fetch_sub_one
turn max_concurrent active ready = (active, loaded active)
turn max_concurrent active (loaded cur) = attempt max_concurrent active cur
turn max_concurrent active holding = (fetch_sub_one active, ready)
turn max_concurrent active refused = (active, ready)

pub record System : Type 0 where
  pub max_concurrent : ℕ
  pub active : ℕ
  pub threads : List Phase

-- The turn of the thread at a position; a position out of range is no turn.
unfoldable pub turn_at : ℕ → ℕ → ℕ → List Phase → ℕ × List Phase
unfolding turn
turn_at max_concurrent active i [] = (active, [])
turn_at max_concurrent active zero (p ∷ ps) =
    let (active', p') = turn max_concurrent active p in (active', p' ∷ ps)
turn_at max_concurrent active (suc i) (p ∷ ps) =
    let (active', ps') = turn_at max_concurrent active i ps in (active', p ∷ ps')

unfoldable pub step : System → ℕ → System
step s i = record s {
  active = (turn_at s.max_concurrent s.active i s.threads).0;
  threads = (turn_at s.max_concurrent s.active i s.threads).1;
}

-- A schedule names the thread of each turn.
unfoldable pub run : System → List ℕ → System
run s [] = s
run s (i ∷ schedule) = run (step s i) schedule

abbrev pub is_holding : Phase → ℕ
is_holding holding = 1
is_holding _ = 0

unfoldable pub holders : List Phase → ℕ
holders [] = 0
holders (p ∷ ps) = is_holding p + holders ps
