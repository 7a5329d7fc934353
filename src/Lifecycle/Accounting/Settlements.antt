-- ===== src/Lifecycle/Accounting/Settlements.antt =====
-- What the decisions of src/service_lifecycle_accounting.rs keep: one reservation, one settlement.
use iicp_client_rust.Base.{◌≡◌, ◌↔◌, true, false}
use iicp_client_rust.Lifecycle.Accounting.{
  LifecycleAccountingDecision, Input, is_binding, reserved, settled,
}

-- A decision that fits what is on record.
pub record IsSound (i : Input) (d : LifecycleAccountingDecision) : Type 0 where
  -- An execution starts exactly with a reservation of its own, and settles nothing then.
  pub started : (d.new_execution ≡ true) ↔ (d.reservation_action ≡ "create")
  pub unsettled : d.new_execution ≡ true → d.settlement_action ≡ "none"
  -- An execution starts for identifiers that no task has: a submission that is not on record under
  -- its own binding, or a new task after a resume.
  pub fresh :
      d.new_execution ≡ true → (is_binding i "same" ≡ false) × (is_binding i "conflict" ≡ false)
  -- A settlement is made once, for a reservation.
  pub settles : d.settlement_action ≡ "create" → (settled i ≡ false) × (reserved i ≡ true)
  pub releases : d.reservation_action ≡ "release" → (settled i ≡ false) × (reserved i ≡ true)
