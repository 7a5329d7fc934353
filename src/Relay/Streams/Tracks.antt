-- ===== src/Relay/Streams/Tracks.antt =====
-- How far a stream has come that a worker sends whole, with nothing lost: src/relay_session.rs.
use iicp_client_rust.Base.{
  ℕ, zero, suc, ◌≤◌, String, ◌==◌, ◌≡◌, ◌≢◌, refl, sym, ap, ◌∙◌, true, false, ◌⊎◌, inl, inr, List,
  [], ◌∷◌, ◌++◌, append_assoc, length, length-append, none, some, ok, arith, if◌then◌else◌,
}
use iicp_client_rust.Base.Words.{wrapping_add}
use iicp_client_rust.Base.Dict.{get, insert, get-insert_self}
use iicp_client_rust.Native.Responses.{Frame, ResponseSequence, accept, check}
use iicp_client_rust.Native.Responses.Streams.{Fits-check, IsStream, at}
use iicp_client_rust.Relay.Streams.{
  Channel, Streams, channel, can_send, sends, max_relay_stream_events, deliver_checked,
  deliver_stream_event,
}
use iicp_client_rust.Relay.Streams.Delivered.{Same}
use iicp_client_rust.Relay.Streams.Acts.{Act, delivers, forwards, polls, act, given_by, got_by}

module _ {V : Type 0} where
  -- What the worker sends for a call.
  abbrev pub sent_by : String → Act V → List (Frame V)
  sent_by call (delivers other f) = if other == call then f ∷ [] else []
  sent_by call (forwards session other task) = []
  sent_by call (polls other resumed elapsed) = []

  unfoldable pub sent : String → List (Act V) → List (Frame V)
  sent call [] = []
  sent call (a ∷ acts) = sent_by call a ++ sent call acts

  -- The session after some acts.
  unfoldable pub run_acts : Streams V → List (Act V) → Streams V
  run_acts s [] = s
  run_acts s (a ∷ acts) = run_acts (act s a) acts

  -- A number of polls, none of which waits until its time is over.
  unfoldable pub polls_of : String → ℕ → List (Act V)
  polls_of call zero = []
  polls_of call (suc k) = polls call false none ∷ polls_of call k

  pub got_by-append :
      (call : String) (s : Streams V) (acts more : List (Act V))
      → got_by call s (acts ++ more) ≡ got_by call s acts ++ got_by call (run_acts s acts) more
  unfolding got_by run_acts
  got_by-append call s [] more = refl
  got_by-append call s (a ∷ acts) more =
      ap (λ got. given_by call s a ++ got) (got_by-append call (act s a) acts more)
      ∙ sym (
          append_assoc (given_by call s a) (got_by call (act s a) acts)
            (got_by call (run_acts (act s a) acts) more))

  -- No other stream has the identifier of the call, and no poll of the call waits until its time is over.
  abbrev pub IsCalm : String → Act V → Type 0
  IsCalm call (delivers other f) = Unit
  IsCalm call (forwards session other task) = other ≢ call
  IsCalm call (polls other resumed elapsed) = other ≡ call → elapsed ≡ none

  -- Of the frames `all` the caller has `got`, the channel holds the next, and `rest` is still to come; what is
  -- not over is a stream, and nothing has failed.
  pub record IsOnTrack (session call task : String) (all : List (Frame V)) (s : Streams V)
      (got rest : List (Frame V)) : Type 0 where
    pub whole : got ++ ((channel s call).queue ++ rest) ≡ all
    pub intact : (channel s call).failure ≡ none
    pub owed :
        (((channel s call).receiving ≡ true)
          × ((n : ℕ) × IsStream session call task n ((channel s call).queue ++ rest)))
        ⊎ ((channel s call).queue ++ rest ≡ [])
    pub entry :
        (rest ≡ [])
        ⊎ ((n : ℕ) × (get call s.pending ≡ some (at session call task n false))
            × IsStream session call task n rest)

  pub Same-IsOnTrack :
      (session call task : String) (all : List (Frame V)) (s t : Streams V)
      (got rest : List (Frame V))
      → Same call s t
      → IsOnTrack session call task all s got rest
      → IsOnTrack session call task all t got rest
  Same-IsOnTrack session call task all s t got rest (pending, channels) v = record {
    whole = rw channels v.whole;
    intact = rw channels v.intact;
    owed = rw channels v.owed;
    entry = rw pending v.entry;
  }

  pub append_is_nil : (xs ys : List (Frame V)) → xs ++ ys ≡ [] → (xs ≡ []) × (ys ≡ [])
  append_is_nil [] ys h = (refl, h)
  append_is_nil (x ∷ xs) ys h = absurd (ground arith)

  module _ (session call task : String) (all : List (Frame V))
      (fits : length all ≤ max_relay_stream_events) where
    -- A frame that is next is accepted.
    accept_next :
        (n : ℕ) (f : Frame V) (rest : List (Frame V))
        → IsStream session call task n (f ∷ rest)
        → (accept (at session call task n false) f
            ≡ (at session call task (wrapping_add n 1) f.is_final, ok tt))
          × ((rest ≡ [])
              ⊎ ((f.is_final ≡ false) × IsStream session call task (wrapping_add n 1) rest))
    unfolding accept
    accept_next n f rest v =
        let good : check (at session call task n false) f ≡ ok tt =
          Fits-check (at session call task n false) f (record {
            live = refl;
            session = v.0;
            call = v.1;
            task = v.2;
            sequence = v.3;
            final = v.4;
            agrees = v.5;
          }) in
        (rw (good, accept) refl, elim v.6 [ inl (last, over) ↦ inl over | inr more ↦ inr more ])

    -- The facts about a channel that a state has for the call.
    pub on_track :
        (s : Streams V) (c : Channel V) (got rest : List (Frame V))
        → channel s call ≡ c
        → got ++ (c.queue ++ rest) ≡ all
        → c.failure ≡ none
        → (((c.receiving ≡ true) × ((n : ℕ) × IsStream session call task n (c.queue ++ rest)))
            ⊎ (c.queue ++ rest ≡ []))
        → ((rest ≡ [])
            ⊎ ((n : ℕ) × (get call s.pending ≡ some (at session call task n false))
                × IsStream session call task n rest))
        → IsOnTrack session call task all s got rest
    on_track s c got rest same whole intact owed entry = record {
      whole = rw same whole;
      intact = rw same intact;
      owed = rw same owed;
      entry = entry;
    }

    sent_state :
        (s : Streams V) (f : Frame V) (sequence sequence' : ResponseSequence)
        → get call s.pending ≡ some sequence
        → accept sequence f ≡ (sequence', ok tt)
        → can_send (channel s call) ≡ true
        → deliver_stream_event s call f ≡ record {
          pending = insert call sequence' s.pending;
          channels = insert call (sends f (channel s call)) s.channels;
        }
    unfolding deliver_checked
    sent_state s f sequence sequence' found taken room =
        let checked : deliver_stream_event s call f ≡ deliver_checked s call f (accept sequence f) =
          unfold deliver_stream_event in rw (found, deliver_stream_event) refl in
        checked ∙ ap (deliver_checked s call f) taken ∙ rw room refl

    has_room :
        (s : Streams V) (got rest : List (Frame V)) (f : Frame V)
        → got ++ ((channel s call).queue ++ f ∷ rest) ≡ all
        → (channel s call).receiving ≡ true
        → can_send (channel s call) ≡ true
    has_room s got rest f whole receiving =
        let q = (channel s call).queue in
        ground
          (arith, ap length whole, length-append got (q ++ f ∷ rest), length-append q (f ∷ rest))

    pub deliver-IsOnTrack :
        (s : Streams V) (got : List (Frame V)) (f : Frame V) (rest : List (Frame V))
        → IsOnTrack session call task all s got (f ∷ rest)
        → IsOnTrack session call task all (deliver_stream_event s call f) got rest
    deliver-IsOnTrack s got f rest v = elim v.entry [
      | inl none_left ↦ absurd (ground arith)
      | inr (n, found, stream) ↦ elim v.owed [
        | inr none_owed ↦
            let over = (append_is_nil (channel s call).queue (f ∷ rest) none_owed).1 in
            absurd (ground arith)
        | inl (receiving, (m, tail)) ↦
            let q = (channel s call).queue in
            let (taken, more) = accept_next n f rest stream in
            let next = at session call task (wrapping_add n 1) f.is_final in
            rw
              (sent_state s f (at session call task n false) next found taken
                (has_room s got rest f v.whole receiving))
              (on_track _ (sends f (channel s call)) got rest
                (rw (get-insert_self call (sends f (channel s call)) s.channels) refl)
                (rw (append_assoc q (f ∷ []) rest) v.whole) v.intact
                (inl (receiving, (m, rw (append_assoc q (f ∷ []) rest) tail)))
                (elim more [
                  | inl over ↦ inl over
                  | inr (going, stream') ↦ inr (
                    wrapping_add n 1,
                    rw (get-insert_self call next s.pending, going) refl,
                    stream',
                  )
                ]))
      ]
    ]
