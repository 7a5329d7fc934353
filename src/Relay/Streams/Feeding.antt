-- ===== src/Relay/Streams/Feeding.antt =====
-- Frames that the check of a stream accepts, one after the other: src/native_response_sequence.rs.
use iicp_client_rust.Base.{
  ℕ, String, ◌≡◌, refl, ap, true, false, ◌⊎◌, inl, inr, List, [], ◌∷◌, ◌++◌, Result, ok, err, arith,
  Bool-cases,
}
use iicp_client_rust.Base.Words.{wrapping_add}
use iicp_client_rust.Native.Responses.{Frame, ResponseSequence, accept}
use iicp_client_rust.Native.Responses.Statuses.{Agrees}
use iicp_client_rust.Native.Responses.Streams.{Fits, check-Fits, check-cases, at}

-- The opening of a stream from a sequence on: frames of the call, sequences that count up, and nothing after
-- a final one.
abbrev pub IsOpening : {V : Type 0} → String → String → String → ℕ → List (Frame V) → Type 0
IsOpening session call task n [] = Unit
IsOpening session call task n (f ∷ fs) =
    (f.session_id ≡ session)
    × (f.call_id ≡ call)
    × (f.lifecycle.task_id ≡ task)
    × (f.lifecycle.sequence ≡ n)
    × (f.lifecycle.is_final ≡ f.is_final)
    × Agrees f.status f.lifecycle.event f.is_final
    × (((f.is_final ≡ true) × (fs ≡ []))
        ⊎ ((f.is_final ≡ false) × IsOpening session call task (wrapping_add n 1) fs))

abbrev pub feed_on :
    ResponseSequence × Result String (Unit {0})
    → (ResponseSequence → Result String ResponseSequence)
    → Result String ResponseSequence
feed_on (s, err code) k = err code
feed_on (s, ok _) k = k s

feed_on-map :
    (o : ResponseSequence × Result String (Unit {0}))
    (k l : ResponseSequence → Result String ResponseSequence) (t : ResponseSequence)
    (r : Result String ResponseSequence)
    → ((u : ResponseSequence) → k u ≡ ok t → l u ≡ r)
    → feed_on o k ≡ ok t
    → feed_on o l ≡ r
feed_on-map (s, err code) k l t r on h = absurd (ground arith)
feed_on-map (s, ok done) k l t r on h = on s h

module _ {V : Type 0} where
  -- The state of the check after frames that are all accepted.
  unfoldable pub feed : ResponseSequence → List (Frame V) → Result String ResponseSequence
  feed s [] = ok s
  feed s (f ∷ fs) = feed_on (accept s f) (λ t. feed t fs)

  pub feed-append :
      (s t : ResponseSequence) (xs ys : List (Frame V))
      → feed s xs ≡ ok t
      → feed s (xs ++ ys) ≡ feed t ys
  unfolding feed
  feed-append s t [] ys h = let same : s ≡ t = ground arith in ap (λ u. feed u ys) same
  feed-append s t (f ∷ xs) ys h =
      feed_on-map (accept s f) (λ u. feed u xs) (λ u. feed u (xs ++ ys)) t (feed t ys)
        (λ u. feed-append u t xs ys) h

  accept-cases :
      (s : ResponseSequence) (f : Frame V)
      → ((code : String) × (accept s f ≡ (s, err code)))
        ⊎ (Fits s f
            × (accept s f ≡ (
              record s {
                next_sequence = wrapping_add s.next_sequence 1;
                terminal_seen = f.is_final;
              },
              ok tt,
            )))
  unfolding accept
  accept-cases s f = elim (check-cases s f) [
    | inl good ↦ inr (check-Fits s f good, rw (good, accept) refl)
    | inr (code, bad) ↦ inl (code, rw (bad, accept) refl)
  ]

  -- After a final frame nothing more is accepted.
  feed_done :
      (session call task : String) (n : ℕ) (fs rest : List (Frame V)) (t : ResponseSequence)
      → feed (at session call task n true) (fs ++ rest) ≡ ok t
      → fs ≡ []
  unfolding feed
  feed_done session call task n [] rest t h = refl
  feed_done session call task n (f ∷ fs) rest t h =
      elim (accept-cases (at session call task n true) f) [
        | inl (code, refused) ↦ let met = rw refused at h in absurd (ground arith)
        | inr (v, taken) ↦ let live = v.live in absurd (ground arith)
      ]

  pub feed-IsOpening :
      (session call task : String) (n : ℕ) (fs : List (Frame V)) (rest : List (Frame V))
      (t : ResponseSequence)
      → feed (at session call task n false) (fs ++ rest) ≡ ok t
      → IsOpening session call task n fs
  unfolding feed
  feed-IsOpening session call task n [] rest t h = tt
  feed-IsOpening session call task n (f ∷ fs) rest t h =
      elim (accept-cases (at session call task n false) f) [
        | inl (code, refused) ↦ let met = rw refused at h in absurd (ground arith)
        | inr (v, taken) ↦
            let met = rw taken at h in
            elim (Bool-cases f.is_final) [
              | inl last ↦ (
                v.session,
                v.call,
                v.task,
                v.sequence,
                v.final,
                v.agrees,
                inl (
                  last,
                  feed_done session call task (wrapping_add n 1) fs rest t (rw last at met),
                ),
              )
              | inr more ↦ (
                v.session,
                v.call,
                v.task,
                v.sequence,
                v.final,
                v.agrees,
                inr (
                  more,
                  feed-IsOpening session call task (wrapping_add n 1) fs rest t (rw more at met),
                ),
              )
            ]
      ]
