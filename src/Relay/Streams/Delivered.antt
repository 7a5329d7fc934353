-- ===== src/Relay/Streams/Delivered.antt =====
-- What the caller of a forwarded stream gets: src/relay_session.rs.
use iicp_client_rust.Base.{
  String, ◌==◌, ◌≡◌, refl, ◌∙◌, false, ◌⊎◌, inl, inr, List, [], ◌∷◌, ◌++◌, append_assoc, none, some,
  Result, ok, err, Bool-cases, Option-cases,
}
use iicp_client_rust.Base.Dict.{
  get, insert, get-insert, get-remove, get-insert_self, get-remove_self,
}
use iicp_client_rust.Native.Responses.{Frame, ResponseSequence, accept}
use iicp_client_rust.Native.Responses.Streams.{at}
use iicp_client_rust.Relay.Streams.{
  Streams, channel, fails, sends, can_send, drop_stream, deliver_checked, deliver_stream_event,
}
use iicp_client_rust.Relay.Streams.Feeding.{feed, feed-append}

module _ {V : Type 0} where
  -- A caller that got `got` and has the channel's queue before it: all these frames were accepted, and a
  -- pending entry is the state of the check after them.
  pub record IsFed (session call task : String) (s : Streams V) (got : List (Frame V))
      : Type 0 where
    pub state : ResponseSequence
    pub fed : feed (at session call task 0 false) (got ++ (channel s call).queue) ≡ ok state
    pub entry : (get call s.pending ≡ none) ⊎ (get call s.pending ≡ some state)

  -- What an operation leaves of another call.
  abbrev pub Same : String → Streams V → Streams V → Type 0
  Same call s t =
      (get call t.pending ≡ get call s.pending) × (get call t.channels ≡ get call s.channels)

  pub Same-IsFed :
      (session call task : String) (s t : Streams V) (got : List (Frame V))
      → Same call s t
      → IsFed session call task s got
      → IsFed session call task t got
  Same-IsFed session call task s t got (pending, channels) v = record {
    state = v.state;
    fed = rw channels v.fed;
    entry = rw pending v.entry;
  }

  drop_stream-Same :
      (s : Streams V) (other call code : String)
      → (other == call) ≡ false
      → Same call s (drop_stream s other code)
  unfolding drop_stream
  drop_stream-Same s other call code differs = (
    rw (get-remove other call s.pending, differs) refl,
    rw (get-insert other call (fails code (channel s other)) s.channels, differs) refl,
  )

  checked-Same :
      (s : Streams V) (other call : String) (f : Frame V)
      (o : ResponseSequence × Result String (Unit {0}))
      → (other == call) ≡ false
      → Same call s (deliver_checked s other f o)
  unfolding deliver_checked
  checked-Same s other call f (sequence, err code) differs =
      drop_stream-Same s other call code differs
  checked-Same s other call f (sequence, ok done) differs =
      elim (Bool-cases (can_send (channel s other))) [
        | inl room ↦
            let kept = get-insert other call sequence s.pending in
            let left = get-insert other call (sends f (channel s other)) s.channels in
            rw room (rw (kept, differs) refl, rw (left, differs) refl)
        | inr full ↦ rw full (drop_stream-Same s other call "relay_backpressure_exceeded" differs)
      ]

  pub deliver-Same :
      (s : Streams V) (other call : String) (f : Frame V)
      → (other == call) ≡ false
      → Same call s (deliver_stream_event s other f)
  unfolding deliver_stream_event
  deliver-Same s other call f differs = elim (Option-cases (get other s.pending)) [
    | inl missing ↦ rw (missing, deliver_stream_event) (refl, refl)
    | inr (sequence, found) ↦
        rw (found, deliver_stream_event) (checked-Same s other call f (accept sequence f) differs)
  ]

  module _ (session call task : String) (s : Streams V) (got : List (Frame V)) where
    dropped-IsFed :
        (code : String)
        → IsFed session call task s got
        → IsFed session call task (drop_stream s call code) got
    unfolding drop_stream
    dropped-IsFed code v = record {
      state = v.state;
      fed = rw (get-insert_self call (fails code (channel s call)) s.channels) v.fed;
      entry = inl (get-remove_self call s.pending);
    }

    sent-IsFed :
        (sequence : ResponseSequence) (f : Frame V) (v : IsFed session call task s got)
        → accept v.state f ≡ (sequence, ok tt)
        → IsFed session call task
            (record {
              pending = insert call sequence s.pending;
              channels = insert call (sends f (channel s call)) s.channels;
            })
            got
    unfolding feed
    sent-IsFed sequence f v taken =
        let before = got ++ (channel s call).queue in
        let grows : feed v.state (f ∷ []) ≡ ok sequence = rw taken refl in
        let all_fed =
          feed-append (at session call task 0 false) v.state before (f ∷ []) v.fed ∙ grows in
        record {
          state = sequence;
          fed =
              rw
                (
                  get-insert_self call (sends f (channel s call)) s.channels,
                  ← append_assoc got (channel s call).queue (f ∷ []),
                )
                all_fed;
          entry = inr (get-insert_self call sequence s.pending);
        }

    checked-IsFed :
        (f : Frame V) (o : ResponseSequence × Result String (Unit {0}))
        (v : IsFed session call task s got)
        → accept v.state f ≡ o
        → IsFed session call task (deliver_checked s call f o) got
    unfolding deliver_checked
    checked-IsFed f (sequence, err code) v taken = dropped-IsFed code v
    checked-IsFed f (sequence, ok done) v taken = elim (Bool-cases (can_send (channel s call))) [
      | inl room ↦ rw room (sent-IsFed sequence f v taken)
      | inr full ↦ rw full (dropped-IsFed "relay_backpressure_exceeded" v)
    ]

    pub deliver-IsFed :
        (f : Frame V)
        → IsFed session call task s got
        → IsFed session call task (deliver_stream_event s call f) got
    unfolding deliver_stream_event
    deliver-IsFed f v = elim v.entry [
      | inl missing ↦ rw (missing, deliver_stream_event) v
      | inr found ↦ rw (found, deliver_stream_event) (checked-IsFed f (accept v.state f) v refl)
    ]
