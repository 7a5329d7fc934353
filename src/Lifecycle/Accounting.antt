-- ===== src/Lifecycle/Accounting.antt =====
-- src/service_lifecycle_accounting.rs: what a call on a task does to its reservation and its settlement. The
-- input is JSON; `text` and `flag` are what serde_json reads of a key as a text and as a Boolean.
pub mod Settlements
use Prim.Native.String.{◌++◌ as append}
use iicp_client_rust.Base.{
  String, ◌==◌, Bool, true, false, not, ◌&&◌, ◌||◌, List, [], ◌∷◌, Option, none, some, one_of,
  if◌then◌else◌,
}

pub record LifecycleAccountingDecision : Type 0 where
  pub decision : String
  pub reservation_action : String
  pub settlement_action : String
  pub new_execution : Bool

pub record Input : Type 0 where
  pub text : String → Option String
  pub flag : String → Option Bool

abbrev pub result : String → String → String → Bool → LifecycleAccountingDecision
result decision reservation_action settlement_action new_execution = record {
  decision = decision;
  reservation_action = reservation_action;
  settlement_action = settlement_action;
  new_execution = new_execution;
}

abbrev pub simple : String → LifecycleAccountingDecision
simple decision = result decision "none" "none" false

abbrev pub is_some_of : Option String → List String → Bool
is_some_of none ts = false
is_some_of (some s) ts = one_of ts s

abbrev pub is_some_true : Option Bool → Bool
is_some_true none = false
is_some_true (some b) = b

abbrev pub is_binding : Input → String → Bool
is_binding i kind = is_some_of (i.text "binding") (kind ∷ [])

abbrev pub reserved : Input → Bool
reserved i = is_some_true (i.flag "reservation_exists")

abbrev pub settled : Input → Bool
settled i = is_some_true (i.flag "settlement_exists")

abbrev pub is_partial : Input → Bool
is_partial i = is_some_of (i.text "delivery") ("partial" ∷ [])

unfoldable pub resume : Input → LifecycleAccountingDecision
resume i =
    if is_some_true (i.flag "resume_available")
    then simple "replay_events"
    else if not (is_some_true (i.flag "explicit_new_task"))
    then simple "explicit_new_task_required"
    else if not (is_binding i "fresh")
        || not (is_some_true (i.flag "fresh_task_id"))
        || not (is_some_true (i.flag "fresh_idempotency_key"))
    then simple "reject_identifier_reuse"
    else result "start_new_task" "create" "none" true

unfoldable pub submit : Input → LifecycleAccountingDecision
submit i =
    if is_binding i "conflict"
    then simple "reject_conflict"
    else if is_binding i "same" && reserved i
    then result "reuse_execution" "reuse" "none" false
    else if is_binding i "same"
    then simple "reject_missing_reservation"
    else if reserved i
    then simple "reject_conflict"
    else result "start_execution" "create" "none" true

unfoldable pub cancel : Input → LifecycleAccountingDecision
cancel i =
    if settled i
    then result "return_existing_settlement" "reuse" "reuse" false
    else if not (reserved i)
    then simple "cancel_without_accounting"
    else if not (is_some_true (i.flag "accepted"))
    then result "cancel_before_acceptance" "release" "none" false
    else result
        (if is_partial i then "cancel_after_partial_delivery" else "cancel_after_acceptance")
        "reuse" "create" false

-- The settlement of a terminal state that was read.
abbrev pub settle : Input → Option String → LifecycleAccountingDecision
settle i none = simple "reject_invalid_input"
settle i (some state) =
    if one_of ("completed" ∷ "failed" ∷ "cancelled" ∷ "expired" ∷ []) state
    then result (append "settle_" (append state (if is_partial i then "_partial" else ""))) "reuse"
        "create" false
    else simple "reject_invalid_input"

unfoldable pub finish : Input → LifecycleAccountingDecision
finish i =
    if settled i
    then result "return_existing_settlement" "reuse" "reuse" false
    else if not (reserved i)
    then simple "reject_missing_reservation"
    else settle i (i.text "terminal_state")

-- The `match` on an operation that passed the checks.
unfoldable pub act : String → Input → LifecycleAccountingDecision
unfolding resume submit cancel finish
act operation i =
    if operation == "status"
    then simple "return_status"
    else if operation == "observe"
    then simple "replay_events"
    else if operation == "resume"
    then resume i
    else if operation == "submit"
    then submit i
    else if operation == "cancel"
    then cancel i
    else if operation == "terminal"
    then finish i
    else simple "reject_invalid_input"

abbrev pub is_readable : Input → Bool
is_readable i =
    is_some_of (i.text "binding") ("same" ∷ "conflict" ∷ "fresh" ∷ [])
    && is_some_of (i.text "delivery") ("none" ∷ "partial" ∷ "complete" ∷ [])

abbrev pub decide : Input → Option String → LifecycleAccountingDecision
decide i none = simple "reject_invalid_input"
decide i (some operation) =
    if not
        (one_of ("submit" ∷ "status" ∷ "observe" ∷ "resume" ∷ "cancel" ∷ "terminal" ∷ []) operation)
      || not (is_readable i)
    then simple "reject_invalid_input"
    else if one_of ("status" ∷ "observe" ∷ "cancel" ∷ "terminal" ∷ []) operation
        && not (is_binding i "same")
    then simple "reject_conflict"
    else act operation i

unfoldable pub decide_lifecycle_accounting : Input → LifecycleAccountingDecision
unfolding act
decide_lifecycle_accounting i = decide i (i.text "operation")
