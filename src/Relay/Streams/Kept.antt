-- ===== src/Relay/Streams/Kept.antt =====
-- Nothing of a stream is lost, whatever happens to the session: src/relay_session.rs.
use iicp_client_rust.Base.{
  ℕ, ◌≤◌, String, ◌==◌, eq_refl, ◌≡◌, refl, sym, subst, ap, ◌∙◌, Bool, true, false, ◌⊎◌, inl, inr,
  List, [], ◌∷◌, ◌++◌, append_nil, append_assoc, length, none, some, All, arith, Bool-cases,
  String-cases, if◌then◌else◌,
}
use iicp_client_rust.Base.Words.{wrapping_add}
use iicp_client_rust.Base.Dict.{get, contains_key, get-insert_self}
use iicp_client_rust.Native.Responses.{Frame}
use iicp_client_rust.Native.Responses.Streams.{IsStream, at}
use iicp_client_rust.Relay.Streams.{
  Channel, Streams, channel, max_relay_stream_events, deliver_stream_event, end_stream, take_next,
  receive, poll_channel, poll,
}
use iicp_client_rust.Relay.Streams.Delivered.{deliver-Same}
use iicp_client_rust.Relay.Streams.Polled.{given}
use iicp_client_rust.Relay.Streams.Acts.{
  Act, delivers, forwards, polls, act, given_by, got_by, forward_stream-Same, poll-Same,
}
use iicp_client_rust.Relay.Streams.Tracks.{
  sent, sent_by, run_acts, IsCalm, IsOnTrack, append_is_nil, Same-IsOnTrack, on_track,
  deliver-IsOnTrack,
}

module _ {V : Type 0} where
  module _ (session call task : String) (all : List (Frame V))
      (fits : length all ≤ max_relay_stream_events) where
    -- The stream is over, or the caller has dropped nothing that is owed.
    end-IsOnTrack :
        (s : Streams V) (c : Channel V) (got : List (Frame V))
        → c.queue ≡ []
        → c.failure ≡ none
        → got ≡ all
        → IsOnTrack session call task all (end_stream s call c) got []
    unfolding end_stream
    end-IsOnTrack s c got is_empty intact whole =
        on_track session call task all fits _ (record c { receiving = false }) got []
          (rw (get-insert_self call (record c { receiving = false }) s.channels) refl)
          (rw (is_empty, append_nil got) whole) intact (inr (rw is_empty refl)) (inl refl)

    -- With no pending entry nothing is still to come.
    none_to_come :
        (s : Streams V) (got rest : List (Frame V))
        → contains_key call s.pending ≡ false
        → IsOnTrack session call task all s got rest
        → rest ≡ []
    none_to_come s got rest gone v = elim v.entry [
      | inl over ↦ over
      | inr (n, found, stream) ↦ absurd (ground arith)
    ]

    take_next-IsOnTrack :
        (s : Streams V) (got rest : List (Frame V)) (c : Channel V) (queue : List (Frame V))
        (f : Frame V)
        → c ≡ channel s call
        → c.failure ≡ none
        → got ++ (f ∷ queue ++ rest) ≡ all
        → (channel s call).receiving ≡ true
        → ((rest ≡ [])
            ⊎ ((n : ℕ) × (get call s.pending ≡ some (at session call task n false))
                × IsStream session call task n rest))
        → (m : ℕ) (last : Bool)
        → ((last ≡ true) × (queue ++ rest ≡ []))
          ⊎ ((last ≡ false) × IsStream session call task (wrapping_add m 1) (queue ++ rest))
        → IsOnTrack session call task all
            (take_next s call (record c { queue = queue }) f last).0
            (got ++ given (take_next s call (record c { queue = queue }) f last).1)
            rest
    unfolding take_next
    take_next-IsOnTrack s got rest c queue f same intact whole receiving entry m true
          (inr (going, stream)) =
        absurd (ground arith)
    take_next-IsOnTrack s got rest c queue f same intact whole receiving entry m false
          (inl (last, over)) =
        absurd (ground arith)
    take_next-IsOnTrack s got rest c queue f same intact whole receiving entry m true
          (inl (last, over)) =
        let (no_queue, no_rest) = append_is_nil queue rest over in
        subst
          (λ r.
            IsOnTrack session call task all (end_stream s call (record c { queue = queue }))
              (got ++ f ∷ []) r)
          (sym no_rest)
          (end-IsOnTrack s (record c { queue = queue }) (got ++ f ∷ []) no_queue intact
            (rw (no_queue, no_rest) at whole))
    take_next-IsOnTrack s got rest c queue f same intact whole receiving entry m false
          (inr (going, stream)) =
        on_track session call task all fits _ (record c { queue = queue }) (got ++ f ∷ []) rest
          (rw (get-insert_self call (record c { queue = queue }) s.channels) refl)
          (rw (append_assoc got (f ∷ []) (queue ++ rest)) whole) intact
          (inl (ap (λ d. d.receiving) same ∙ receiving, (wrapping_add m 1, stream))) entry

    receive-IsOnTrack :
        (s : Streams V) (got rest : List (Frame V)) (c : Channel V) (queue : List (Frame V))
        → c ≡ channel s call
        → c.queue ≡ queue
        → IsOnTrack session call task all s got rest
        → IsOnTrack session call task all
            (receive s call none c queue).0
            (got ++ given (receive s call none c queue).1)
            rest
    unfolding receive
    receive-IsOnTrack s got rest c [] same queued v =
        elim (Bool-cases (contains_key call s.pending)) [
          | inl pending ↦ rw (pending, append_nil got) v
          | inr gone ↦
              let q : (channel s call).queue ≡ [] = ap (λ d. d.queue) (sym same) ∙ queued in
              let over : rest ≡ [] = none_to_come s got rest gone v in
              let whole : got ++ ((channel s call).queue ++ rest) ≡ all = v.whole in
              rw (gone, append_nil got)
                (subst (λ r. IsOnTrack session call task all (end_stream s call c) got r) (sym over)
                  (end-IsOnTrack s c got queued (ap (λ d. d.failure) same ∙ v.intact)
                    (rw (q, over, append_nil got) at whole)))
        ]
    receive-IsOnTrack s got rest c (f ∷ queue) same queued v =
        let q : (channel s call).queue ≡ f ∷ queue = ap (λ d. d.queue) (sym same) ∙ queued in
        let intact : c.failure ≡ none = ap (λ d. d.failure) same ∙ v.intact in
        let whole : got ++ (f ∷ queue ++ rest) ≡ all = rw q at v.whole in
        elim v.owed [
          | inr none_owed ↦
              let over = (append_is_nil (channel s call).queue rest none_owed).0 in
              absurd (ground arith)
          | inl (receiving, (m, tail)) ↦
              let stream : IsStream session call task m (f ∷ queue ++ rest) = rw q at tail in
              take_next-IsOnTrack s got rest c queue f same intact whole receiving v.entry m
                f.is_final stream.6
        ]

    pub poll-IsOnTrack :
        (s : Streams V) (got rest : List (Frame V)) (resumed : Bool)
        → IsOnTrack session call task all s got rest
        → IsOnTrack session call task all
            (poll s call resumed none).0
            (got ++ given (poll s call resumed none).1)
            rest
    unfolding poll poll_channel
    poll-IsOnTrack s got rest true v =
        receive-IsOnTrack s got rest (channel s call) (channel s call).queue refl refl v
    poll-IsOnTrack s got rest false v =
        rw (v.intact, poll_channel)
          (receive-IsOnTrack s got rest (channel s call) (channel s call).queue refl refl v)

    act-IsOnTrack :
        (s : Streams V) (got rest : List (Frame V)) (a : Act V)
        → IsCalm call a
        → IsOnTrack session call task all s got (sent_by call a ++ rest)
        → IsOnTrack session call task all (act s a) (got ++ given_by call s a) rest
    unfolding act
    act-IsOnTrack s got rest (delivers other f) calm v =
        rw (append_nil got) (elim (String-cases other call) [
          | inl own ↦
              subst (λ k. IsOnTrack session call task all (deliver_stream_event s k f) got rest)
                (sym own)
                (deliver-IsOnTrack session call task all fits s got f rest
                  (rw (own, eq_refl call) at v))
          | inr differs ↦
              Same-IsOnTrack session call task all s _ got rest
                (deliver-Same s other call f differs) (rw differs at v)
        ])
    act-IsOnTrack s got rest (forwards other_session other other_task) calm v =
        elim (String-cases other call) [
          | inl own ↦ absurd (calm own)
          | inr differs ↦ rw (append_nil got) (
              Same-IsOnTrack session call task all s _ got rest
                (forward_stream-Same s other_session other other_task call differs) v)
        ]
    act-IsOnTrack s got rest (polls other resumed elapsed) calm v = elim (String-cases other call) [
      | inl own ↦ rw (calm own) (
          subst
            (λ k.
              IsOnTrack session call task all (poll s k resumed none).0
                (got ++ (if k == call then given (poll s k resumed none).1 else [])) rest)
            (sym own) (rw (eq_refl call) (poll-IsOnTrack s got rest resumed v)))
      | inr differs ↦
          rw (differs, append_nil got)
            (Same-IsOnTrack session call task all s _ got rest
              (poll-Same s other call resumed elapsed differs) v)
    ]

    pub acts-IsOnTrack :
        (s : Streams V) (got : List (Frame V)) (acts : List (Act V))
        → All (IsCalm call) acts
        → IsOnTrack session call task all s got (sent call acts)
        → IsOnTrack session call task all (run_acts s acts) (got ++ got_by call s acts) []
    unfolding sent run_acts got_by
    acts-IsOnTrack s got [] calm v = rw (append_nil got) v
    acts-IsOnTrack s got (a ∷ acts) (first_calm, calm) v =
        rw (← append_assoc got (given_by call s a) (got_by call (act s a) acts)) (
          acts-IsOnTrack (act s a) (got ++ given_by call s a) acts calm
            (act-IsOnTrack s got (sent call acts) a first_calm v))
