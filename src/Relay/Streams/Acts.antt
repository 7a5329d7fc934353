-- ===== src/Relay/Streams/Acts.antt =====
-- All that the caller of a forwarded stream gets, whatever happens to the session: src/relay_session.rs.
use iicp_client_rust.Base.{
  String, ◌==◌, All, eq_refl, ◌≡◌, ◌≢◌, refl, sym, subst, Bool, true, false, inl, inr, List, [],
  ◌∷◌, ◌++◌, append_nil, append_assoc, Option, none, String-cases, if◌then◌else◌,
}
use iicp_client_rust.Base.Dict.{get-insert, get-insert_self}
use iicp_client_rust.Native.Responses
use iicp_client_rust.Native.Responses.{Frame, ResponseSequence}
use iicp_client_rust.Native.Responses.Streams.{at}
use iicp_client_rust.Relay.Streams.{
  Streams, channel, deliver_stream_event, forward_stream, fresh_channel, poll,
}
use iicp_client_rust.Relay.Streams.Delivered.{IsFed, Same, Same-IsFed, deliver-Same, deliver-IsFed}
use iicp_client_rust.Relay.Streams.Feeding.{IsOpening, feed, feed-IsOpening}
use iicp_client_rust.Relay.Streams.Polled.{given, poll_channel-Same, poll_channel-IsFed}

-- What happens to the streams of a session: the worker's events arrive, callers start other streams, and
-- callers poll.
pub data Act (V : Type 0) : Type 0 where
  delivers : String → Frame V → Act V
  forwards : String → String → String → Act V
  polls : String → Bool → Option String → Act V

module _ {V : Type 0} where
  unfoldable pub act : Streams V → Act V → Streams V
  act s (delivers call f) = deliver_stream_event s call f
  act s (forwards session call task) = forward_stream s session call task
  act s (polls call resumed elapsed) = (poll s call resumed elapsed).0

  -- One thing that happens, and what it gives the caller.
  abbrev pub given_by : String → Streams V → Act V → List (Frame V)
  given_by call s (delivers other f) = []
  given_by call s (forwards session other task) = []
  given_by call s (polls other resumed elapsed) =
      if other == call then given (poll s other resumed elapsed).1 else []

  -- What the caller of a call gets from its own polls.
  unfoldable pub got_by : String → Streams V → List (Act V) → List (Frame V)
  got_by call s [] = []
  got_by call s (a ∷ acts) = given_by call s a ++ got_by call (act s a) acts

  -- No other stream has the identifier of the call.
  abbrev pub IsOther : String → Act V → Type 0
  IsOther call (delivers other f) = Unit
  IsOther call (forwards session other task) = other ≢ call
  IsOther call (polls other resumed elapsed) = Unit

  pub forward_stream-Same :
      (s : Streams V) (session other task call : String)
      → (other == call) ≡ false
      → Same call s (forward_stream s session other task)
  unfolding forward_stream
  forward_stream-Same s session other task call differs = (
    rw (get-insert other call (Responses.new session other task) s.pending, differs) refl,
    rw (get-insert other call (fresh_channel {V = V}) s.channels, differs) refl,
  )

  pub poll-Same :
      (s : Streams V) (other call : String) (resumed : Bool) (elapsed : Option String)
      → (other == call) ≡ false
      → Same call s (poll s other resumed elapsed).0
  unfolding poll
  poll-Same s other call false elapsed differs =
      poll_channel-Same s other call elapsed (channel s other) (channel s other).failure differs
  poll-Same s other call true elapsed differs =
      poll_channel-Same s other call elapsed (channel s other) none differs

  poll-IsFed :
      (session call task : String) (s : Streams V) (got : List (Frame V)) (resumed : Bool)
      (elapsed : Option String)
      → IsFed session call task s got
      → IsFed session call task
          (poll s call resumed elapsed).0
          (got ++ given (poll s call resumed elapsed).1)
  unfolding poll
  poll-IsFed session call task s got false elapsed v =
      poll_channel-IsFed session call task s got elapsed (channel s call) (channel s call).failure v
        refl
  poll-IsFed session call task s got true elapsed v =
      poll_channel-IsFed session call task s got elapsed (channel s call) none v refl

  act-IsFed :
      (session call task : String) (s : Streams V) (got : List (Frame V)) (a : Act V)
      → IsOther call a
      → IsFed session call task s got
      → IsFed session call task (act s a) (got ++ given_by call s a)
  unfolding act
  act-IsFed session call task s got (delivers other f) apart v =
      rw (append_nil got) (elim (String-cases other call) [
        | inl own ↦
            subst (λ k. IsFed session call task (deliver_stream_event s k f) got) (sym own)
              (deliver-IsFed session call task s got f v)
        | inr differs ↦ Same-IsFed session call task s _ got (deliver-Same s other call f differs) v
      ])
  act-IsFed session call task s got (forwards other_session other other_task) apart v =
      elim (String-cases other call) [
        | inl own ↦ absurd (apart own)
        | inr differs ↦ rw (append_nil got) (
            Same-IsFed session call task s _ got
              (forward_stream-Same s other_session other other_task call differs) v)
      ]
  act-IsFed session call task s got (polls other resumed elapsed) apart v =
      elim (String-cases other call) [
        | inl own ↦
            subst
              (λ k.
                IsFed session call task (poll s k resumed elapsed).0
                  (got ++ (if k == call then given (poll s k resumed elapsed).1 else [])))
              (sym own) (rw (eq_refl call) (poll-IsFed session call task s got resumed elapsed v))
        | inr differs ↦
            rw (differs, append_nil got)
              (Same-IsFed session call task s _ got (poll-Same s other call resumed elapsed differs)
                v)
      ]

  acts-IsOpening :
      (session call task : String) (s : Streams V) (got : List (Frame V)) (acts : List (Act V))
      → All (IsOther call) acts
      → IsFed session call task s got
      → IsOpening session call task 0 (got ++ got_by call s acts)
  unfolding got_by
  acts-IsOpening session call task s got [] apart v =
      rw (append_nil got)
        (feed-IsOpening session call task 0 got (channel s call).queue v.state v.fed)
  acts-IsOpening session call task s got (a ∷ acts) (other, apart) v =
      rw (← append_assoc got (given_by call s a) (got_by call (act s a) acts)) (
        acts-IsOpening session call task (act s a) (got ++ given_by call s a) acts apart
          (act-IsFed session call task s got a other v))

  -- Whatever frames a worker sends for whatever calls, and whenever callers poll, the caller of a stream
  -- gets the opening of a well-formed response sequence of its call: nothing of another call, no gap, no
  -- repetition and nothing after a final frame; as long as no other stream has the call's identifier.
  pub got_by-IsOpening :
      (session call task : String) (s : Streams V) (acts : List (Act V))
      → All (IsOther call) acts
      → IsOpening session call task 0 (got_by call (forward_stream s session call task) acts)
  unfolding forward_stream feed Responses.new
  got_by-IsOpening session call task s acts apart =
      acts-IsOpening session call task (forward_stream s session call task) [] acts apart (record {
        state = at session call task 0 false;
        fed = rw (get-insert_self call (fresh_channel {V = V}) s.channels) refl;
        entry = inr (get-insert_self call (at session call task 0 false) s.pending);
      })
