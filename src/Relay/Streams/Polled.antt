-- ===== src/Relay/Streams/Polled.antt =====
-- What the polls of a forwarded stream give its caller, one after the other: src/relay_session.rs.
use iicp_client_rust.Base.{
  String, ◌==◌, ◌≡◌, refl, sym, ap, ◌∙◌, Bool, true, false, inl, inr, List, [], ◌∷◌, ◌++◌,
  append_nil, append_assoc, Option, none, some, ok, Bool-cases,
}
use iicp_client_rust.Base.Dict.{
  contains_key, get-insert, get-remove, get-insert_self, get-remove_self,
}
use iicp_client_rust.Native.Responses.{Frame}
use iicp_client_rust.Native.Responses.Streams.{at}
use iicp_client_rust.Relay.Streams.{
  Streams, Channel, channel, Item, yielded, failed, waiting, end_stream, receive, poll_channel,
  take_next,
}
use iicp_client_rust.Relay.Streams.Delivered.{IsFed, Same}
use iicp_client_rust.Relay.Streams.Feeding.{feed}

abbrev pub given : {V : Type 0} → Item V → List (Frame V)
given (yielded f) = f ∷ []
given (failed reason) = []
given waiting = []

module _ {V : Type 0} where
  end_stream-Same :
      (s : Streams V) (other call : String) (c : Channel V)
      → (other == call) ≡ false
      → Same call s (end_stream s other c)
  unfolding end_stream
  end_stream-Same s other call c differs = (
    rw (get-remove other call s.pending, differs) refl,
    rw (get-insert other call (record c { receiving = false }) s.channels, differs) refl,
  )

  take_next-Same :
      (s : Streams V) (other call : String) (c : Channel V) (next : Frame V) (last : Bool)
      → (other == call) ≡ false
      → Same call s (take_next s other c next last).0
  unfolding take_next
  take_next-Same s other call c next true differs = end_stream-Same s other call c differs
  take_next-Same s other call c next false differs =
      (refl, rw (get-insert other call c s.channels, differs) refl)

  receive-Same :
      (s : Streams V) (other call : String) (elapsed : Option String) (c : Channel V)
      (queue : List (Frame V))
      → (other == call) ≡ false
      → Same call s (receive s other elapsed c queue).0
  unfolding receive
  receive-Same s other call elapsed c (next ∷ rest) differs =
      take_next-Same s other call (record c { queue = rest }) next next.is_final differs
  receive-Same s other call none c [] differs = elim (Bool-cases (contains_key other s.pending)) [
    | inl pending ↦ rw pending (refl, refl)
    | inr gone ↦ rw gone (end_stream-Same s other call c differs)
  ]
  receive-Same s other call (some message) c [] differs =
      elim (Bool-cases (contains_key other s.pending)) [
        | inl pending ↦ rw pending (end_stream-Same s other call c differs)
        | inr gone ↦ rw gone (end_stream-Same s other call c differs)
      ]

  pub poll_channel-Same :
      (s : Streams V) (other call : String) (elapsed : Option String) (c : Channel V)
      (failure : Option String)
      → (other == call) ≡ false
      → Same call s (poll_channel s other elapsed c failure).0
  unfolding poll_channel
  poll_channel-Same s other call elapsed c none differs =
      receive-Same s other call elapsed c c.queue differs
  poll_channel-Same s other call elapsed c (some reason) differs =
      end_stream-Same s other call (record c { failure = none }) differs

  module _ (session call task : String) (s : Streams V) (got : List (Frame V)) where
    -- The caller's end is closed, with the queue as it is.
    ended-IsFed :
        (c : Channel V) (more : List (Frame V)) (v : IsFed session call task s got)
        → feed (at session call task 0 false) ((got ++ more) ++ c.queue) ≡ ok v.state
        → IsFed session call task (end_stream s call c) (got ++ more)
    unfolding end_stream
    ended-IsFed c more v fed = record {
      state = v.state;
      fed = rw (get-insert_self call (record c { receiving = false }) s.channels) fed;
      entry = inl (get-remove_self call s.pending);
    }

    take_next-IsFed :
        (c : Channel V) (next : Frame V) (last : Bool) (v : IsFed session call task s got)
        → feed (at session call task 0 false) ((got ++ next ∷ []) ++ c.queue) ≡ ok v.state
        → IsFed session call task
            (take_next s call c next last).0
            (got ++ given (take_next s call c next last).1)
    unfolding take_next
    take_next-IsFed c next true v fed = ended-IsFed c (next ∷ []) v fed
    take_next-IsFed c next false v fed = record {
      state = v.state;
      fed = rw (get-insert_self call c s.channels) fed;
      entry = v.entry;
    }

    still :
        (c : Channel V) (v : IsFed session call task s got)
        → c ≡ channel s call
        → feed (at session call task 0 false) ((got ++ []) ++ c.queue) ≡ ok v.state
    still c v same = rw (append_nil got, same) v.fed

    receive-IsFed :
        (elapsed : Option String) (c : Channel V) (queue : List (Frame V))
        (v : IsFed session call task s got)
        → c ≡ channel s call
        → c.queue ≡ queue
        → IsFed session call task
            (receive s call elapsed c queue).0
            (got ++ given (receive s call elapsed c queue).1)
    unfolding receive
    receive-IsFed elapsed c (next ∷ rest) v same is_next =
        let queued : (channel s call).queue ≡ next ∷ rest =
          ap (λ d. d.queue) (sym same) ∙ is_next in
        take_next-IsFed (record c { queue = rest }) next next.is_final v
          (rw (append_assoc got (next ∷ []) rest) (rw queued at v.fed))
    receive-IsFed none c [] v same is_empty = elim (Bool-cases (contains_key call s.pending)) [
      | inl pending ↦ rw (pending, append_nil got) v
      | inr gone ↦ rw gone (ended-IsFed c [] v (still c v same))
    ]
    receive-IsFed (some message) c [] v same is_empty =
        elim (Bool-cases (contains_key call s.pending)) [
          | inl pending ↦ rw pending (ended-IsFed c [] v (still c v same))
          | inr gone ↦ rw gone (ended-IsFed c [] v (still c v same))
        ]

    pub poll_channel-IsFed :
        (elapsed : Option String) (c : Channel V) (failure : Option String)
        (v : IsFed session call task s got)
        → c ≡ channel s call
        → IsFed session call task
            (poll_channel s call elapsed c failure).0
            (got ++ given (poll_channel s call elapsed c failure).1)
    unfolding poll_channel
    poll_channel-IsFed elapsed c none v same = receive-IsFed elapsed c c.queue v same refl
    poll_channel-IsFed elapsed c (some reason) v same =
        ended-IsFed (record c { failure = none }) [] v (still c v same)
