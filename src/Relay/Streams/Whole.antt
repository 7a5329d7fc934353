-- ===== src/Relay/Streams/Whole.antt =====
-- A stream that a worker sends whole reaches its caller whole: src/relay_session.rs.
use iicp_client_rust.Base.{
  ℕ, zero, suc, ◌-◌, ◌≤◌, String, eq_refl, ◌≡◌, refl, ap, ◌∙◌, Bool, true, false, inl, inr, List,
  [], ◌∷◌, ◌++◌, append_nil, append_assoc, length, length-append, none, All, arith, Bool-cases,
  List-cases,
}
use iicp_client_rust.Base.Dict.{contains_key, get-insert_self}
use iicp_client_rust.Native.Responses
use iicp_client_rust.Native.Responses.{Frame, ResponseSequence, accept, check}
use iicp_client_rust.Native.Responses.Streams.{IsStream, at}
use iicp_client_rust.Relay.Streams.{
  Channel, Streams, channel, fresh_channel, max_relay_stream_events, forward_stream, end_stream,
  take_next, receive, poll_channel, poll,
}
use iicp_client_rust.Relay.Streams.Polled.{given}
use iicp_client_rust.Relay.Streams.Acts.{Act, act, got_by}
use iicp_client_rust.Relay.Streams.Tracks.{
  sent, run_acts, polls_of, got_by-append, IsCalm, IsOnTrack, on_track,
}
use iicp_client_rust.Relay.Streams.Kept.{poll-IsOnTrack, acts-IsOnTrack}

module _ {V : Type 0} where
  module _ (session call task : String) (all : List (Frame V))
      (fits : length all ≤ max_relay_stream_events) where
    take_next-queue :
        (s : Streams V) (c : Channel V) (f : Frame V) (last : Bool)
        → (channel (take_next s call c f last).0 call).queue ≡ c.queue
    unfolding take_next end_stream
    take_next-queue s c f true =
        rw (get-insert_self call (record c { receiving = false }) s.channels) refl
    take_next-queue s c f false = rw (get-insert_self call c s.channels) refl

    receive_shrinks :
        (s : Streams V) (c : Channel V) (queue : List (Frame V))
        → channel s call ≡ c
        → c.queue ≡ queue
        → length (channel (receive s call none c queue).0 call).queue ≤ length queue - 1
    unfolding receive end_stream
    receive_shrinks s c (f ∷ queue) same queued =
        omega (arith, ap length (take_next-queue s (record c { queue = queue }) f f.is_final))
    receive_shrinks s c [] same queued = elim (Bool-cases (contains_key call s.pending)) [
      | inl pending ↦ rw pending (rw (same, queued) (omega arith))
      | inr gone ↦ rw gone (
          rw (get-insert_self call (record c { receiving = false }) s.channels, queued)
            (omega arith))
    ]

    -- A poll takes one of the events that are there.
    poll_shrinks :
        (s : Streams V)
        → (channel s call).failure ≡ none
        → length (channel (poll s call false none).0 call).queue ≤ length (channel s call).queue - 1
    unfolding poll poll_channel
    poll_shrinks s intact =
        rw (intact, poll_channel)
          (receive_shrinks s (channel s call) (channel s call).queue refl refl)

    drain :
        (k : ℕ) (s : Streams V) (got : List (Frame V))
        → IsOnTrack session call task all s got []
        → length (channel s call).queue ≤ k
        → got ++ got_by call s (polls_of call k) ≡ all
    unfolding got_by polls_of act
    drain zero s got v short = elim (List-cases (channel s call).queue) [
      | inl no_more ↦ rw (append_nil got) (rw (no_more, append_nil got) at v.whole)
      | inr (f, rest, e) ↦ absurd (omega (arith, ap length e))
    ]
    drain (suc k) s got v short =
        rw
          (
            eq_refl call,
            ← append_assoc got (given (poll s call false none).1)
                (got_by call (poll s call false none).0 (polls_of call k)),
          )
          (drain k (poll s call false none).0 (got ++ given (poll s call false none).1)
            (poll-IsOnTrack session call task all fits s got [] false v)
            (omega (arith, poll_shrinks s v.intact)))

    queue_le :
        (s : Streams V) (got : List (Frame V))
        → IsOnTrack session call task all s got []
        → length (channel s call).queue ≤ length all
    queue_le s got v =
        let q = (channel s call).queue in
        omega (arith, ap length v.whole, length-append got (q ++ []), length-append q [])

    forwarded-IsOnTrack :
        (s : Streams V)
        → IsStream session call task 0 all
        → IsOnTrack session call task all (forward_stream s session call task) [] all
    unfolding forward_stream Responses.new
    forwarded-IsOnTrack s stream =
        on_track session call task all fits _ fresh_channel [] all
          (rw (get-insert_self call (fresh_channel {V = V}) s.channels) refl) refl refl
          (inl (refl, (0, stream)))
          (inr (0, get-insert_self call (at session call task 0 false) s.pending, stream))

    whole_from :
        (s : Streams V) (acts : List (Act V)) (k : ℕ)
        → IsStream session call task 0 all
        → All (IsCalm call) acts
        → sent call acts ≡ all
        → length all ≤ k
        → got_by call (forward_stream s session call task) (acts ++ polls_of call k) ≡ all
    whole_from s acts k stream calm is_all enough =
        let t = forward_stream s session call task in
        let v =
          acts-IsOnTrack session call task all fits t [] acts calm
            (rw is_all (forwarded-IsOnTrack s stream)) in
        got_by-append call t acts (polls_of call k)
        ∙ drain k (run_acts t acts) (got_by call t acts) v
            (omega (arith, queue_le (run_acts t acts) (got_by call t acts) v))

  -- A well-formed response sequence of at most 32 frames that a worker sends for a call reaches the caller whole
  -- and in order once the caller has polled as often as it has frames after the last was sent, whatever happens to
  -- other calls and whenever the caller polls before; as long as no other stream has the call's identifier and no
  -- poll of the caller waits until its time is over.
  pub got_by_whole :
      (session call task : String) (s : Streams V) (acts : List (Act V)) (k : ℕ)
      → IsStream session call task 0 (sent call acts)
      → length (sent call acts) ≤ max_relay_stream_events
      → All (IsCalm call) acts
      → length (sent call acts) ≤ k
      → got_by call (forward_stream s session call task) (acts ++ polls_of call k) ≡ sent call acts
  got_by_whole session call task s acts k stream fits calm enough =
      whole_from session call task (sent call acts) fits s acts k stream calm refl enough
