-- ===== src/Provider/Recovery.antt =====
-- src/recovery.rs: the rule that turns health signals into a recovery state and an action.
use iicp_client_rust.Base.{
  ℕ, ◌≤◌, ◌≡◌, ◌↔◌, ◌⊎◌, Bool, true, false, not, ◌&&◌, ◌||◌, leb, if◌then◌else◌, arith,
}

pub data RecoveryState : Type 0 where
  healthy local_unhealthy backend_attention route_mismatch tunnel_cooling_down : RecoveryState
  directory_absent limited_reach restart_recommended unknown : RecoveryState

pub data RecoveryAction : Type 0 where
  nothing reregister wait_cooldown mark_unavailable restart_self : RecoveryAction
  operator_endpoint_needed attend_backend : RecoveryAction

pub data DirectoryPresence : Type 0 where
  present absent unseen : DirectoryPresence

abbrev pub default_grace_checks : ℕ
default_grace_checks = 3

unfoldable pub effective_public_route_available : Bool → Bool → Bool → Bool
effective_public_route_available runtime_available route_needs_promotion relay_bound =
    runtime_available && (relay_bound || not route_needs_promotion)

-- The `match` on the directory's answer.
unfoldable pub by_presence : DirectoryPresence → ℕ → ℕ → RecoveryState × RecoveryAction
by_presence present failures grace = (healthy, nothing)
by_presence absent failures grace =
    if leb grace failures then (route_mismatch, restart_self) else (directory_absent, reregister)
by_presence unseen failures grace = (unknown, nothing)

unfoldable pub classify :
    Bool → Bool → DirectoryPresence → ℕ → ℕ → Bool → RecoveryState × RecoveryAction
unfolding by_presence
classify local_health_ok public_available seen_by failures grace backend =
    if not local_health_ok
    then (local_unhealthy, restart_self)
    else if backend
    then (backend_attention, attend_backend)
    else if not public_available
    then if leb grace failures
      then (restart_recommended, restart_self)
      else (limited_reach, wait_cooldown)
    else by_presence seen_by failures grace

-- A node restarts exactly when its own health fails, or when the backend needs no attention, the
-- failures have used up the grace, and it is not reachable or the directory has lost it.
pub classify-restart_self :
    (local_ok public_ok : Bool) (seen_by : DirectoryPresence) (failures grace : ℕ) (backend : Bool)
    → ((classify local_ok public_ok seen_by failures grace backend).1 ≡ restart_self) ↔ (
        (local_ok ≡ false)
        ⊎ ((backend ≡ false) × (grace ≤ failures) × ((public_ok ≡ false) ⊎ (seen_by ≡ absent))))
unfolding classify
classify-restart_self local_ok public_ok seen_by failures grace backend =
    (λ h. ground arith, λ h. ground arith)

-- A node that is reported healthy is well, reachable and in the directory, and its backend needs no
-- attention; and one of which this holds is reported healthy.
pub classify-healthy :
    (local_ok public_ok : Bool) (seen_by : DirectoryPresence) (failures grace : ℕ) (backend : Bool)
    → ((classify local_ok public_ok seen_by failures grace backend).0 ≡ healthy)
      ↔ ((local_ok ≡ true) × (backend ≡ false) × (public_ok ≡ true) × (seen_by ≡ present))
unfolding classify
classify-healthy local_ok public_ok seen_by failures grace backend =
    (λ h. ground arith, λ h. ground arith)
