-- ===== src/Provider/Idempotency/Duplicates.antt =====
-- A task is admitted once within the time to live: src/idempotency.rs.
use iicp_client_rust.Base.{
  ℕ, ◌+◌, ◌<◌, String, eq_iff, ◌≡◌, ◌≢◌, refl, true, false, List, [], ◌∷◌, none, some, arith,
}
use iicp_client_rust.Base.Dict.{get, get-insert, get-insert_self}
use iicp_client_rust.Provider.Idempotency.{IdempotencyGuard, check_and_register, unexpired}

-- What has not run out is still found.
get-unexpired :
    (now : ℕ) (k : String) (seen : List (String × ℕ)) {t : ℕ}
    → get k seen ≡ some t
    → now < t
    → get k (unexpired now seen) ≡ some t
unfolding get
get-unexpired now k [] h lt = cc
get-unexpired now k ((j, e) ∷ seen) {t} h lt = ground (arith, get-unexpired now k seen {t = t})

get_absent-unexpired :
    (now : ℕ) (k : String) (seen : List (String × ℕ))
    → get k seen ≡ none
    → get k (unexpired now seen) ≡ none
unfolding get
get_absent-unexpired now k [] h = refl
get_absent-unexpired now k ((j, e) ∷ seen) h = ground (arith, get_absent-unexpired now k seen)

-- Calls of any tasks, each at a time.
unfoldable pub run : IdempotencyGuard → List (ℕ × String) → IdempotencyGuard
run g [] = g
run g ((now, task_id) ∷ calls) = run (check_and_register g now task_id).0 calls

abbrev pub Before : ℕ → List (ℕ × String) → Type 0
Before end [] = Unit
Before end ((now, task_id) ∷ calls) = (now < end) × Before end calls

check-get :
    (g : IdempotencyGuard) (now : ℕ) (k j : String) (t : ℕ)
    → get k g.seen ≡ some t
    → now < t
    → get k (check_and_register g now j).0.seen ≡ some t
unfolding check_and_register
check-get g now k j t h lt = ground (
  arith,
  get-unexpired now k g.seen {t = t} h lt,
  get-insert j k (now + g.ttl) (unexpired now g.seen),
  eq_iff j k,
)

run-get :
    (g : IdempotencyGuard) (calls : List (ℕ × String)) (k : String) (t : ℕ)
    → get k g.seen ≡ some t
    → Before t calls
    → get k (run g calls).seen ≡ some t
unfolding run
run-get g [] k t h b = h
run-get g ((now, j) ∷ calls) k t h b =
    run-get (check_and_register g now j).0 calls k t (check-get g now k j t h b.0) b.1

registered :
    (g : IdempotencyGuard) (now : ℕ) (k : String)
    → k ≢ ""
    → (check_and_register g now k).1 ≡ true
    → get k (check_and_register g now k).0.seen ≡ some (now + g.ttl)
unfolding check_and_register
registered g now k named h =
    ground (arith, eq_iff k "", get-insert_self k (now + g.ttl) (unexpired now g.seen))

refused :
    (g : IdempotencyGuard) (now : ℕ) (k : String) (t : ℕ)
    → k ≢ ""
    → get k g.seen ≡ some t
    → now < t
    → (check_and_register g now k).1 ≡ false
unfolding check_and_register
refused g now k t named h lt = ground (arith, eq_iff k "", get-unexpired now k g.seen {t = t} h lt)

-- A task with an identifier that was admitted is refused as a duplicate until its time to live is
-- over, whatever tasks are checked in between, before that time.
pub check_and_register_again :
    (g : IdempotencyGuard) (now later : ℕ) (task_id : String) (calls : List (ℕ × String))
    → task_id ≢ ""
    → (check_and_register g now task_id).1 ≡ true
    → Before (now + g.ttl) calls
    → later < now + g.ttl
    → (check_and_register (run (check_and_register g now task_id).0 calls) later task_id).1 ≡ false
check_and_register_again g now later k calls named h b lt =
    refused _ later k (now + g.ttl) named
      (run-get _ calls k (now + g.ttl) (registered g now k named h) b) lt

-- A task of which nothing is on record is admitted, and so is every task without an identifier.
pub check_and_register_new :
    (g : IdempotencyGuard) (now : ℕ) (task_id : String)
    → get task_id g.seen ≡ none
    → (check_and_register g now task_id).1 ≡ true
unfolding check_and_register
check_and_register_new g now k h = ground (arith, get_absent-unexpired now k g.seen h)
