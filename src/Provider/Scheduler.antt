-- ===== src/Provider/Scheduler.antt =====
-- src/scheduler.rs: who waits for a slot.
use iicp_client_rust.Base.{
  ℕ, ◌<◌, String, ◌==◌, ◌≡◌, ◌↔◌, Bool, true, [], ◌∷◌, one_of, if◌then◌else◌, arith,
}

abbrev pub queue_wait_s : ℕ
queue_wait_s = 2

unfoldable pub qos_priority : String → ℕ
qos_priority qos =
    if qos == "realtime"
    then 0
    else if qos == "interactive"
    then 1
    else if qos == "batch"
    then 2
    else 3

unfoldable pub is_queue_eligible : String → Bool
is_queue_eligible qos = one_of ("realtime" ∷ "interactive" ∷ []) qos

-- The classes that wait at capacity are those of the two highest ranks.
pub is_queue_eligible-qos_priority :
    (qos : String) → (is_queue_eligible qos ≡ true) ↔ (qos_priority qos < 2)
unfolding qos_priority is_queue_eligible
is_queue_eligible-qos_priority qos = (λ h. ground arith, λ h. ground arith)
