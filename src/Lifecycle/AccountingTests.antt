-- ===== src/Lifecycle/AccountingTests.antt =====
-- Accounting decisions at concrete inputs.
use iicp_client_rust.Base.{String, ◌==◌, ◌≡◌, refl, Bool, true, false, none, some, if◌then◌else◌}
use iicp_client_rust.Lifecycle.Accounting.{
  Input, result, decide_lifecycle_accounting, act, submit, finish,
}

abbrev input : String → String → Bool → Input
input operation binding reserved = record {
  text = λ key.
      if key == "operation"
      then some operation
      else if key == "binding"
      then some binding
      else if key == "delivery"
      then some "partial"
      else if key == "terminal_state"
      then some "failed"
      else none;
  flag = λ key. if key == "reservation_exists" then some reserved else none;
}

started_lem :
    decide_lifecycle_accounting (input "submit" "fresh" false)
    ≡ result "start_execution" "create" "none" true
unfolding decide_lifecycle_accounting act submit
started_lem = refl

settled_lem :
    decide_lifecycle_accounting (input "terminal" "same" true)
    ≡ result "settle_failed_partial" "reuse" "create" false
unfolding decide_lifecycle_accounting act finish
settled_lem = refl
