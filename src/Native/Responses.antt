-- ===== src/Native/Responses.antt =====
-- src/native_response_sequence.rs: the check of a sequence of RESPONSE frames. `V` stands for the
-- JSON of a result or an error, which the check does not read.
pub mod Statuses
pub mod Streams
use iicp_client_rust.Base.{
  ℕ, String, ◌==◌, Bool, true, false, not, ◌&&◌, ◌||◌, List, [], ◌∷◌, Option, Result, ok, err,
  ◌>>=◌, ◌>>◌, ensure, eqb, bool_eq, one_of, if◌then◌else◌,
}
use iicp_client_rust.Base.Words.{wrapping_add}

pub record Envelope : Type 0 where
  pub task_id : String
  pub sequence : ℕ
  pub event : String
  pub is_final : Bool

pub record Frame (V : Type 0) : Type 0 where
  pub session_id : String
  pub call_id : String
  pub status : String
  pub is_final : Bool
  pub lifecycle : Envelope
  pub result : V
  pub error : V
  pub tokens_used : Option ℕ

pub record ResponseSequence : Type 0 where
  pub session_id : String
  pub call_id : String
  pub task_id : String
  pub next_sequence : ℕ
  pub terminal_seen : Bool

unfoldable pub new : String → String → String → ResponseSequence
new session_id call_id task_id = record {
  session_id = session_id;
  call_id = call_id;
  task_id = task_id;
  next_sequence = 0;
  terminal_seen = false;
}

-- The `match` on the status.
unfoldable pub status_matches : String → String → Bool
status_matches status event =
    if status == "partial"
    then event == "partial"
    else if status == "success"
    then event == "completed"
    else if status == "error"
    then one_of ("failed" ∷ "cancelled" ∷ []) event
    else if status == "timeout"
    then one_of ("timed_out" ∷ "expired" ∷ []) event
    else false

unfoldable pub flag_mismatch : String → Bool → Bool
flag_mismatch status is_final =
    (status == "partial" && is_final) || (not (status == "partial") && not is_final)

module _ {V : Type 0} where
  -- The guards of `accept`, in order; the error is its code.
  unfoldable pub check : ResponseSequence → Frame V → Result String (Unit {0})
  check s f = do
    ensure (not s.terminal_seen) "response_after_terminal"
    ensure (f.session_id == s.session_id) "session_id_drift"
    ensure (f.call_id == s.call_id) "call_id_drift"
    ensure (f.lifecycle.task_id == s.task_id) "task_id_drift"
    ensure (eqb f.lifecycle.sequence s.next_sequence) "sequence_drift"
    ensure (bool_eq f.is_final f.lifecycle.is_final) "finality_disagreement"
    ensure (status_matches f.status f.lifecycle.event) "status_event_disagreement"
    ensure (not (flag_mismatch f.status f.is_final)) "terminal_flag_mismatch"

  unfoldable pub accept : ResponseSequence → Frame V → ResponseSequence × Result String (Unit {0})
  accept s f = elim (check s f) [
    | err code ↦ (s, err code)
    | ok _ ↦ (
      record s { next_sequence = wrapping_add s.next_sequence 1; terminal_seen = f.is_final },
      ok tt,
    )
  ]

unfoldable pub finish : ResponseSequence → Result String (Unit {0})
finish s = if s.terminal_seen then ok tt else err "missing_terminal_response"

-- A caller that accepts frames until one is refused, and then finishes.
unfoldable pub receive : {V : Type 0} → ResponseSequence → List (Frame V) → Result String (Unit {0})
receive s [] = finish s
receive s (f ∷ frames) =
    let (s', answer) = accept s f in
    let rest = receive s' frames in elim answer [ err code ↦ err code | ok _ ↦ rest ]
