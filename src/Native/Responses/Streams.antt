-- ===== src/Native/Responses/Streams.antt =====
-- What src/native_response_sequence.rs accepts: exactly the well-formed streams.
use iicp_client_rust.Base.{
  ℕ, String, eq_iff, ◌≡◌, refl, sym, ap, ◌∙◌, ◌↔◌, Bool, true, false, ◌⊎◌, inl, inr, List, [], ◌∷◌,
  ok, err, arith, Bool-cases, Result,
}
use iicp_client_rust.Base.Words.{wrapping_add}
use iicp_client_rust.Native.Responses.{Frame, ResponseSequence, new, check, accept, finish, receive}
use iicp_client_rust.Native.Responses.Statuses.{
  Agrees, consistent, consistent-Agrees, Agrees-consistent,
}

-- What one frame must be for the state of the check.
pub record Fits {V : Type 0} (s : ResponseSequence) (f : Frame V) : Type 0 where
  pub live : s.terminal_seen ≡ false
  pub session : f.session_id ≡ s.session_id
  pub call : f.call_id ≡ s.call_id
  pub task : f.lifecycle.task_id ≡ s.task_id
  pub sequence : f.lifecycle.sequence ≡ s.next_sequence
  pub final : f.lifecycle.is_final ≡ f.is_final
  pub agrees : Agrees f.status f.lifecycle.event f.is_final

-- The frames that a caller is owed from a sequence on: each for the call, sequences that count up,
-- and a last one that is the first final one.
abbrev pub IsStream : {V : Type 0} → String → String → String → ℕ → List (Frame V) → Type 0
IsStream session call task n [] = ⊥
IsStream session call task n (f ∷ fs) =
    (f.session_id ≡ session)
    × (f.call_id ≡ call)
    × (f.lifecycle.task_id ≡ task)
    × (f.lifecycle.sequence ≡ n)
    × (f.lifecycle.is_final ≡ f.is_final)
    × Agrees f.status f.lifecycle.event f.is_final
    × (((f.is_final ≡ true) × (fs ≡ []))
        ⊎ ((f.is_final ≡ false) × IsStream session call task (wrapping_add n 1) fs))

-- The state of a check that has met no final frame, or has.
abbrev pub at : String → String → String → ℕ → Bool → ResponseSequence
at session call task n seen = record {
  session_id = session;
  call_id = call;
  task_id = task;
  next_sequence = n;
  terminal_seen = seen;
}

module _ {V : Type 0} where
  pub check-Fits : (s : ResponseSequence) (f : Frame V) → check s f ≡ ok tt → Fits s f
  unfolding check
  check-Fits s f h = record {
    live = ground arith;
    session = ground (arith, eq_iff f.session_id s.session_id);
    call = ground (arith, eq_iff f.call_id s.call_id);
    task = ground (arith, eq_iff f.lifecycle.task_id s.task_id);
    sequence = ground arith;
    final = ground arith;
    agrees =
        consistent-Agrees f.status f.lifecycle.event f.is_final (unfold consistent in ground arith);
  }

  pub Fits-check : (s : ResponseSequence) (f : Frame V) → Fits s f → check s f ≡ ok tt
  unfolding check consistent
  Fits-check s f v = ground (
    arith,
    eq_iff f.session_id s.session_id,
    eq_iff f.call_id s.call_id,
    eq_iff f.lifecycle.task_id s.task_id,
    Agrees-consistent f.status f.lifecycle.event f.is_final v.agrees,
  )

  abbrev after : ResponseSequence → Frame V → ResponseSequence
  after s f = record s {
    next_sequence = wrapping_add s.next_sequence 1;
    terminal_seen = f.is_final;
  }

  pub check-cases :
      (s : ResponseSequence) (f : Frame V)
      → (check s f ≡ ok tt) ⊎ ((code : String) × (check s f ≡ err code))
  check-cases s f = go (check s f) refl
    where
      go :
          (r : Result String (Unit {0}))
          → check s f ≡ r
          → (check s f ≡ ok tt) ⊎ ((code : String) × (check s f ≡ err code))
      go (ok u) e = inl e
      go (err code) e = inr (code, e)

  receive_ok :
      (s : ResponseSequence) (f : Frame V) (fs : List (Frame V))
      → check s f ≡ ok tt
      → receive s (f ∷ fs) ≡ receive (after s f) fs
  unfolding receive
  receive_ok s f fs good =
      let taken : accept s f ≡ (after s f, ok tt) = unfold accept in rw (good, accept) in
      rw (taken, receive) (ap (λ o. receive o.0 fs) taken)

  receive_err :
      (s : ResponseSequence) (f : Frame V) (fs : List (Frame V)) (code : String)
      → check s f ≡ err code
      → receive s (f ∷ fs) ≡ err code
  unfolding receive
  receive_err s f fs code bad =
      let refused : accept s f ≡ (s, err code) = unfold accept in rw (bad, accept) in
      rw (refused, receive)

  receive-cons :
      (s : ResponseSequence) (f : Frame V) (fs : List (Frame V))
      → (receive s (f ∷ fs) ≡ ok tt) ↔ (Fits s f × (receive (after s f) fs ≡ ok tt))
  receive-cons s f fs = elim (check-cases s f) [
    | inl good ↦ (
      λ h. (check-Fits s f good, sym (receive_ok s f fs good) ∙ h),
      λ h. receive_ok s f fs good ∙ h.1,
    )
    | inr (code, bad) ↦ (
      λ h. absurd (ground (arith, receive_err s f fs code bad)),
      λ h. absurd (ground (arith, Fits-check s f h.0)),
    )
  ]

  -- After a final frame nothing more is accepted.
  receive_done :
      (session call task : String) (n : ℕ) (fs : List (Frame V))
      → (receive (at session call task n true) fs ≡ ok tt) ↔ (fs ≡ [])
  unfolding receive finish
  receive_done session call task n [] = (λ h. refl, λ h. refl)
  receive_done session call task n (f ∷ fs) = (
    λ h. absurd (ground (arith, ((receive-cons (at session call task n true) f fs).0 h).0.live)),
    λ h. absurd (ground arith),
  )

  receive_from-IsStream :
      (session call task : String) (n : ℕ) (fs : List (Frame V))
      → receive (at session call task n false) fs ≡ ok tt
      → IsStream session call task n fs
  unfolding receive finish
  receive_from-IsStream session call task n [] h = absurd (ground arith)
  receive_from-IsStream session call task n (f ∷ fs) h =
      let both = (receive-cons (at session call task n false) f fs).0 h in
      let v = both.0 in
      elim (Bool-cases f.is_final) [
        | inl last ↦ (
          v.session,
          v.call,
          v.task,
          v.sequence,
          v.final,
          v.agrees,
          inl (last, (receive_done session call task (wrapping_add n 1) fs).0 (rw last at both.1)),
        )
        | inr more ↦ (
          v.session,
          v.call,
          v.task,
          v.sequence,
          v.final,
          v.agrees,
          inr (
            more,
            receive_from-IsStream session call task (wrapping_add n 1) fs (rw more at both.1),
          ),
        )
      ]

  IsStream-receive_from :
      (session call task : String) (n : ℕ) (fs : List (Frame V))
      → IsStream session call task n fs
      → receive (at session call task n false) fs ≡ ok tt
  IsStream-receive_from session call task n [] v = absurd v
  IsStream-receive_from session call task n (f ∷ fs) v =
      let fits : Fits (at session call task n false) f = record {
        live = refl;
        session = v.0;
        call = v.1;
        task = v.2;
        sequence = v.3;
        final = v.4;
        agrees = v.5;
      } in
      (receive-cons (at session call task n false) f fs).1 (
        fits,
        elim v.6 [
          | inl (last, none_left) ↦
              rw last ((receive_done session call task (wrapping_add n 1) fs).1 none_left)
          | inr (more, rest) ↦
              rw more (IsStream-receive_from session call task (wrapping_add n 1) fs rest)
        ],
      )

  -- A caller's frames are all accepted and may be finished exactly when they are a well-formed
  -- stream from sequence 0 that ends with its first final frame.
  pub receive-IsStream :
      (session call task : String) (fs : List (Frame V))
      → (receive (new session call task) fs ≡ ok tt) ↔ IsStream session call task 0 fs
  unfolding new
  receive-IsStream session call task fs =
      (receive_from-IsStream session call task 0 fs, IsStream-receive_from session call task 0 fs)
