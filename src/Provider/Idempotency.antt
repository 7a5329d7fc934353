-- ===== src/Provider/Idempotency.antt =====
-- `IdempotencyGuard` of src/idempotency.rs. Times are those of a monotonic clock; a call takes the time at
-- which it reads it.
pub mod Duplicates
use iicp_client_rust.Base.{
  ℕ, ◌+◌, String, ◌==◌, Bool, true, false, List, [], ltb, if◌then◌else◌, retain, length,
}
use iicp_client_rust.Base.Dict.{insert, contains_key}

-- 300 seconds.
abbrev pub default_ttl_ms : ℕ
default_ttl_ms = 300000

pub record IdempotencyGuard : Type 0 where
  pub ttl : ℕ
  pub seen : List (String × ℕ)

unfoldable pub new : ℕ → IdempotencyGuard
new ttl = record { ttl = ttl; seen = [] }

-- `seen.retain(|_, &mut exp| exp > now)`.
abbrev pub unexpired : ℕ → List (String × ℕ) → List (String × ℕ)
unexpired now = retain (λ e. ltb now e.1)

unfoldable pub check_and_register : IdempotencyGuard → ℕ → String → IdempotencyGuard × Bool
check_and_register g now task_id =
    if task_id == ""
    then (g, true)
    else (let seen = unexpired now g.seen in
        if contains_key task_id seen
        then (record g { seen = seen }, false)
        else (record g { seen = insert task_id (now + g.ttl) seen }, true))

unfoldable pub size : IdempotencyGuard → ℕ
size g = length g.seen
