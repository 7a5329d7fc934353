-- ===== src/Lifecycle/Store/Replay.antt =====
-- `events_after` of src/service_lifecycle.rs: what an observer that resumes is given.
use iicp_client_rust.Base.{
  ℕ, suc, ◌+◌, ◌-◌, ◌<◌, ◌≤◌, String, ◌≡◌, refl, sym, false, some, List, [], ◌∷◌, arith, ap, subst,
  ok, err, All, first, drop, drop-nil, retain, ltb, ltb→lt, if◌then◌else◌, Result, Bool-cases, inl,
  inr,
}
use iicp_client_rust.Base.Words.{ℤ, pos, negsuc, gtb, as_i64, i64_mod}
use iicp_client_rust.Lifecycle.Types.{
  LifecycleEvent, LifecycleRecord, LifecycleError, resume_unavailable, sequence_or_zero,
  latest_sequence,
}
use iicp_client_rust.Base.Dict.{get, All-get}
use iicp_client_rust.Lifecycle.Store.{LifecycleStore, is_expired, replay, events_after}
use iicp_client_rust.Lifecycle.Store.Invariant.{IsValid, IsSound}
use iicp_client_rust.Lifecycle.Store.Transitions.{status_found}
use iicp_client_rust.Lifecycle.Store.History.{IsHistory}

-- Below 2 ^ 63, where `as i64` keeps the number.
abbrev pub FitsI64 : {V : Type 0} → List (LifecycleEvent V) → Type 0
FitsI64 = All (λ e. e.sequence < i64_mod)

abbrev pub IsI64 : ℤ → Type 0
IsI64 (pos n) = n < i64_mod
IsI64 (negsuc n) = n < i64_mod

-- The sequences count up from `n`.
abbrev pub CountsFrom : {V : Type 0} → ℕ → List (LifecycleEvent V) → Type 0
CountsFrom n [] = Unit {0}
CountsFrom n (e ∷ es) = (e.sequence ≡ n) × (e.sequence < i64_mod) × CountsFrom (suc n) es

module _ {V : Type 0} where
  IsHistory-CountsFrom :
      (task_id state : String) (e : LifecycleEvent V) (es : List (LifecycleEvent V))
      → IsHistory task_id state (e ∷ es)
      → FitsI64 (e ∷ es)
      → CountsFrom e.sequence (e ∷ es)
  IsHistory-CountsFrom t s e [] h b = (refl, b.0, tt)
  IsHistory-CountsFrom t s e (f ∷ es) h b =
      let step : f.sequence ≡ suc e.sequence = omega (arith, h.2, b.0, b.1.0) in
      (refl, b.0, subst (λ n. CountsFrom n (f ∷ es)) step (IsHistory-CountsFrom t s f es h.4 b.1))

  retain-all_later :
      (n m : ℕ) (es : List (LifecycleEvent V))
      → n < m
      → CountsFrom m es
      → retain (λ e. gtb (as_i64 e.sequence) (pos n)) es ≡ es
  retain-all_later n m [] h c = refl
  retain-all_later n m (e ∷ es) h c =
      ground (arith, retain-all_later n (suc m) es (omega arith) c.2)

  retain-drop :
      (n m : ℕ) (es : List (LifecycleEvent V))
      → m ≤ n + 1
      → CountsFrom m es
      → retain (λ e. gtb (as_i64 e.sequence) (pos n)) es ≡ drop (n + 1 - m) es
  retain-drop n m [] h c = sym (drop-nil (n + 1 - m))
  retain-drop n m (e ∷ es) h c = elim (Bool-cases (ltb n m)) [
    | inl later ↦
        let none_off : n + 1 - m ≡ 0 = omega (arith, ltb→lt n m later) in
        rw none_off (retain-all_later n m (e ∷ es) (ltb→lt n m later) c)
    | inr seen ↦
        let one_off : n + 1 - m ≡ suc (n + 1 - suc m) = ground arith in
        rw one_off (ground (arith, retain-drop n (suc m) es (ground arith) c.2))
  ]

  replay_kept :
      (task_id state : String) (n : ℕ) (es : List (LifecycleEvent V))
      → IsHistory task_id state es
      → FitsI64 es
      → sequence_or_zero (first es) ≤ n + 1
      → retain (λ e. gtb (as_i64 e.sequence) (pos n)) es
        ≡ drop (n + 1 - sequence_or_zero (first es)) es
  replay_kept t s n [] h b le = absurd h
  replay_kept t s n (e ∷ es) h b le =
      retain-drop n e.sequence (e ∷ es) le (IsHistory-CountsFrom t s e es h b)

  replay-pos :
      (r : LifecycleRecord V) (n : ℕ)
      → IsHistory r.task_id r.state r.events
      → FitsI64 r.events
      → n < i64_mod
      → let from = sequence_or_zero (first r.events) in
        replay r (pos n) ≡ (
          if ltb (n + 1) from
          then err (resume_unavailable r.state (latest_sequence r))
          else ok (drop (n + 1 - from) r.events))
  unfolding replay
  replay-pos r n h b fits = ground (arith, replay_kept r.task_id r.state n r.events h b)

  retain-all_of_start :
      (m : ℕ) (es : List (LifecycleEvent V))
      → FitsI64 es
      → retain (λ e. gtb (as_i64 e.sequence) (negsuc m)) es ≡ es
  retain-all_of_start m [] b = refl
  retain-all_of_start m (e ∷ es) b = ground (arith, retain-all_of_start m es b.1)

  replay-negsuc :
      (r : LifecycleRecord V) (m : ℕ) → FitsI64 r.events → replay r (negsuc m) ≡ ok r.events
  unfolding replay
  replay-negsuc r m b = ap ok (retain-all_of_start m r.events b)

  -- What an observer is owed, by position in the record: from its next sequence on, or everything
  -- where it has seen nothing, or the news that its next event is gone.
  abbrev pub owed : LifecycleRecord V → ℤ → Result LifecycleError (List (LifecycleEvent V))
  owed r (negsuc m) = ok r.events
  owed r (pos n) =
      let from = sequence_or_zero (first r.events) in
      if ltb (n + 1) from
      then err (resume_unavailable r.state (latest_sequence r))
      else ok (drop (n + 1 - from) r.events)

  replay-owed :
      (r : LifecycleRecord V) (after : ℤ) (task_id : String)
      → r.task_id ≡ task_id
      → IsHistory task_id r.state r.events
      → FitsI64 r.events
      → IsI64 after
      → replay r after ≡ owed r after
  replay-owed r (pos n) task_id id h b fits =
      replay-pos r n (subst (λ t. IsHistory t r.state r.events) (sym id) h) b fits
  replay-owed r (negsuc m) task_id id h b fits = replay-negsuc r m b

  -- In a valid store, and while sequences are below 2 ^ 63, an observer of a task that has not run
  -- out is given exactly the retained events after the sequence that it names, or is told that one is gone;
  -- the store is unchanged.
  pub events_after-owed :
      (s : LifecycleStore V) (now : ℕ) (task_id : String) (after : ℤ) (r : LifecycleRecord V)
      → IsValid s
      → get task_id s.records ≡ some r
      → is_expired s now (some r) ≡ false
      → FitsI64 r.events
      → IsI64 after
      → events_after s now task_id after ≡ (s, owed r after)
  unfolding events_after
  events_after-owed s now task_id after r v found fresh b fits =
      let sound = All-get (IsSound s.max_events) task_id s.records v.sound found in
      rw (
        status_found s now task_id r found fresh,
        replay-owed r after task_id sound.0 sound.3 b fits,
      )
