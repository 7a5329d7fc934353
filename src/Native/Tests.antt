-- ===== src/Native/Tests.antt =====
-- Native calls and response streams at concrete inputs.
use iicp_client_rust.Base.{
  ℕ, String, ◌==◌, ◌≡◌, ◌≢◌, ◌↔◌, refl, Bool, true, false, List, [], ◌∷◌, none, some, ok, err,
  arith, eq_iff, if◌then◌else◌,
}
use iicp_client_rust.Base.Dict.{get, insert}
use iicp_client_rust.Native.Responses.{
  Frame, new, receive, check, status_matches, flag_mismatch, finish, accept as frame_accept,
}
use iicp_client_rust.Native.Responses.Streams.{IsStream, receive-IsStream}
use iicp_client_rust.Native.Calls.{
  IdentityRegistry, Call, task_identity_conflict, lifecycle_profile, accept, identify, required,
}
use iicp_client_rust.Native.Calls.Identities.{Carries, rebound, run, accept_again}

abbrev frame : ℕ → String → String → Bool → Frame String
frame n status event is_final = record {
  session_id = "s1";
  call_id = "c1";
  status = status;
  is_final = is_final;
  lifecycle = record { task_id = "t1"; sequence = n; event = event; is_final = is_final };
  result = "";
  error = "";
  tokens_used = none;
}

abbrev two_frames : List (Frame String)
two_frames = frame 0 "partial" "partial" false ∷ frame 1 "success" "completed" true ∷ []

receive-IsStream_example :
    (receive (new "s1" "c1" "t1") two_frames ≡ ok tt) ↔ IsStream "s1" "c1" "t1" 0 two_frames
receive-IsStream_example = receive-IsStream "s1" "c1" "t1" two_frames

two_frames_lem : receive (new "s1" "c1" "t1") two_frames ≡ ok tt
unfolding receive new frame_accept check status_matches flag_mismatch finish
two_frames_lem = refl

cut_short :
    receive (new "s1" "c1" "t1") (frame 0 "partial" "partial" false ∷ [])
    ≡ err "missing_terminal_response"
unfolding receive new frame_accept check status_matches flag_mismatch finish
cut_short = refl

abbrev registry : IdentityRegistry
registry = record { tasks = []; calls = [] }

abbrev call : String → String → Call
call call_id key field =
    if field == "profile"
    then some lifecycle_profile
    else if field == "task_id"
    then some "t1"
    else if field == "call_id"
    then some call_id
    else if field == "idempotency_key"
    then some key
    else none

call-Carries :
    (call_id key : String) → call_id ≢ "" → key ≢ "" → Carries (call call_id key) "t1" call_id key
call-Carries call_id key named keyed = record {
  profiled = refl;
  task_named = refl;
  call_named = ground (arith, eq_iff call_id "");
  key_named = ground (arith, eq_iff key "");
}

first_accepted : (accept registry (call "c1" "k1")).1 ≡ ok tt
unfolding accept identify required get
first_accepted = refl

-- A second key for the task of an accepted call.
accept_again_example :
    accept (run (accept registry (call "c1" "k1")).0 []) (call "c2" "k2")
    ≡ (run (accept registry (call "c1" "k1")).0 [], err task_identity_conflict)
unfolding accept identify required run get insert
accept_again_example =
    accept_again registry (call "c1" "k1") "t1" "c1" "k1" [] (call "c2" "k2") "t1" "c2" "k2"
      task_identity_conflict
      (call-Carries "c1" "k1" (λ h. ground (arith, eq_iff "c1" ""))
        (λ h. ground (arith, eq_iff "k1" "")))
      first_accepted
      (call-Carries "c2" "k2" (λ h. ground (arith, eq_iff "c2" ""))
        (λ h. ground (arith, eq_iff "k2" "")))
      (rebound refl (λ h. ground (arith, eq_iff "k2" "k1")) refl)
