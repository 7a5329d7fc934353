-- ===== src/Relay/StreamTests.antt =====
-- Streams and frames of a relay at concrete inputs.
use iicp_client_rust.Base.{
  ℕ, String, ◌≡◌, refl, Bool, true, false, List, [], ◌∷◌, ◌++◌, none, ok, arith, eq_iff, inl, inr,
}
use iicp_client_rust.Base.Dict.{get, insert, remove}
use iicp_client_rust.Native.Frames.{try_encode_frame}
use iicp_client_rust.Native.Responses
use iicp_client_rust.Native.Responses.{Frame, accept, check, status_matches, flag_mismatch}
use iicp_client_rust.Relay.Frames.{make_frame, read_frame}
use iicp_client_rust.Relay.Frames.Reading.{read_frame-make_frame}
use iicp_client_rust.Relay.Streams.{
  Streams, forward_stream, deliver_stream_event, deliver_checked, drop_stream, poll, poll_channel,
  receive, take_next, end_stream,
}
use iicp_client_rust.Relay.Streams.Feeding.{IsOpening}
use iicp_client_rust.Native.Responses.Statuses.{partial, success}
use iicp_client_rust.Native.Responses.Streams.{IsStream}
use iicp_client_rust.Relay.Streams.Tracks.{sent, polls_of}
use iicp_client_rust.Relay.Streams.Whole.{got_by_whole}
use iicp_client_rust.Relay.Streams.Acts.{
  Act, delivers, forwards, polls, act, got_by, got_by-IsOpening,
}

abbrev frame : ℕ → String → String → Bool → Frame String
frame n status event is_final = record {
  session_id = "s1";
  call_id = "c1";
  status = status;
  is_final = is_final;
  lifecycle = record { task_id = "t1"; sequence = n; event = event; is_final = is_final };
  result = "";
  error = "";
  tokens_used = none;
}

abbrev idle : Streams String
idle = record { pending = []; channels = [] }

-- One part, a frame for another sequence, and the rest, which comes too late.
abbrev acts : List (Act String)
acts =
    delivers "c1" (frame 0 "partial" "partial" false)
    ∷ forwards "s1" "c2" "t2"
    ∷ polls "c1" false none
    ∷ delivers "c1" (frame 2 "partial" "partial" false)
    ∷ delivers "c1" (frame 1 "success" "completed" true)
    ∷ polls "c1" false none
    ∷ []

got_lem :
    got_by "c1" (forward_stream idle "s1" "c1" "t1") acts ≡ frame 0 "partial" "partial" false ∷ []
unfolding got_by act forward_stream deliver_stream_event deliver_checked drop_stream poll
    poll_channel receive take_next end_stream accept check status_matches flag_mismatch get insert
    remove Responses.new
got_lem = refl

got_by-IsOpening_example :
    IsOpening "s1" "c1" "t1" 0 (got_by "c1" (forward_stream idle "s1" "c1" "t1") acts)
got_by-IsOpening_example =
    got_by-IsOpening "s1" "c1" "t1" idle acts
      (tt, (λ same. absurd (ground (arith, eq_iff "c2" "c1")), (tt, (tt, (tt, (tt, tt))))))

-- Two frames for the call, with another stream and a poll between them.
abbrev whole_acts : List (Act String)
whole_acts =
    delivers "c1" (frame 0 "partial" "partial" false)
    ∷ forwards "s1" "c2" "t2"
    ∷ polls "c1" false none
    ∷ delivers "c1" (frame 1 "success" "completed" true)
    ∷ []

abbrev whole_frames : List (Frame String)
whole_frames = frame 0 "partial" "partial" false ∷ frame 1 "success" "completed" true ∷ []

whole_frames-IsStream : IsStream "s1" "c1" "t1" 0 whole_frames
whole_frames-IsStream = (
  refl,
  refl,
  refl,
  refl,
  refl,
  partial refl refl refl,
  inr (refl, (refl, refl, refl, refl, refl, success refl refl refl, inl (refl, refl))),
)

got_by_whole_example :
    got_by "c1" (forward_stream idle "s1" "c1" "t1") (whole_acts ++ polls_of "c1" 2) ≡ whole_frames
unfolding sent
got_by_whole_example =
    got_by_whole "s1" "c1" "t1" idle whole_acts 2 whole_frames-IsStream (omega arith)
      (tt, (λ same. absurd (ground (arith, eq_iff "c2" "c1")), ((λ same. refl), (tt, tt))))
      (omega arith)

read_frame-make_frame_example :
    (try_encode_frame 6 (1 ∷ 2 ∷ []) 0 ≡ ok (make_frame 6 (1 ∷ 2 ∷ [])))
    × (read_frame (make_frame 6 (1 ∷ 2 ∷ []) ++ 7 ∷ []) ≡ ok ((6, 1 ∷ 2 ∷ []), 7 ∷ []))
read_frame-make_frame_example = read_frame-make_frame 6 (1 ∷ 2 ∷ []) (7 ∷ []) (omega arith)
