-- ===== src/Provider/Concurrency/Slots.antt =====
-- No schedule of src/concurrency.rs gives out more slots than there are, or loses one.
use iicp_client_rust.Base.{ℕ, zero, suc, ◌+◌, ◌≤◌, ◌<◌, ◌≡◌, List, [], ◌∷◌, arith}
use iicp_client_rust.Base.Words.{u64_mod}
use iicp_client_rust.Provider.Concurrency.{
  Phase, ready, loaded, holding, refused, turn, System, turn_at, step, run, is_holding, holders,
}

-- The count is the number of threads with a slot.
pub record IsCounted (s : System) : Type 0 where
  pub fits : s.max_concurrent < u64_mod
  pub capped : s.active ≤ s.max_concurrent
  pub exact : s.active ≡ holders s.threads

turn_counted :
    (max_concurrent active rest : ℕ) (p : Phase)
    → max_concurrent < u64_mod
    → active ≤ max_concurrent
    → active ≡ is_holding p + rest
    → ((turn max_concurrent active p).0 ≤ max_concurrent)
      × ((turn max_concurrent active p).0 ≡ is_holding (turn max_concurrent active p).1 + rest)
unfolding turn
turn_counted m active rest ready f c e = (c, e)
turn_counted m active rest (loaded cur) f c e = ground arith
turn_counted m active rest holding f c e = omega arith
turn_counted m active rest refused f c e = (c, e)

turn_at_counted :
    (max_concurrent active others i : ℕ) (ps : List Phase)
    → max_concurrent < u64_mod
    → active ≤ max_concurrent
    → active ≡ others + holders ps
    → ((turn_at max_concurrent active i ps).0 ≤ max_concurrent)
      × ((turn_at max_concurrent active i ps).0
          ≡ others + holders (turn_at max_concurrent active i ps).1)
unfolding turn_at holders
turn_at_counted m active others i [] f c e = (c, e)
turn_at_counted m active others zero (p ∷ ps) f c e =
    omega (arith, turn_counted m active (others + holders ps) p f c (omega arith))
turn_at_counted m active others (suc i) (p ∷ ps) f c e =
    omega (arith, turn_at_counted m active (others + is_holding p) i ps f c (omega arith))

pub step-IsCounted : (s : System) (i : ℕ) → IsCounted s → IsCounted (step s i)
unfolding step
step-IsCounted s i v =
    let next =
      turn_at_counted s.max_concurrent s.active 0 i s.threads v.fits v.capped
        (omega (arith, v.exact)) in
    record { fits = v.fits; capped = next.0; exact = omega (arith, next.1) }

-- Under any schedule the number of threads that hold a slot is the count of the gate, and at most
-- its maximum.
pub run-IsCounted : (s : System) (schedule : List ℕ) → IsCounted s → IsCounted (run s schedule)
unfolding run
run-IsCounted s [] v = v
run-IsCounted s (i ∷ schedule) v = run-IsCounted (step s i) schedule (step-IsCounted s i v)
