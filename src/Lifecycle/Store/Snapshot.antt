-- ===== src/Lifecycle/Store/Snapshot.antt =====
-- `snapshot` and `restore` of src/service_lifecycle.rs.
use iicp_client_rust.Base.{
  ℕ, suc, ◌<◌, String, ◌==◌, eq_iff, eq_refl, ◌≡◌, refl, ◌∙◌, sym, subst, Bool, true, false, ◌&&◌,
  List, [], ◌∷◌, ◌++◌, Option, none, some, arith, ok, err, All, first, eqb, if◌then◌else◌, ap,
}
use mathlib.Core.List.{append-nil, append_assoc}
use iicp_client_rust.Base.Words.{wrapping_add, u64_mod}
use iicp_client_rust.Base.Dict.{get, insert, values, IsDistinct, insert_absent, get-append_one}
use iicp_client_rust.Lifecycle.Types.{
  profile, LifecycleEvent, LifecycleRecord, LifecycleSnapshot, conflict, sequence_or_zero,
}
use iicp_client_rust.Lifecycle.Store.{LifecycleStore, Outcome}
use iicp_client_rust.Lifecycle.Store.History.{IsHistory}
use iicp_client_rust.Lifecycle.Store.Invariant.{IsValid, IsSound}

module _ {V : Type 0} where
  unfoldable pub snapshot : LifecycleStore V → LifecycleSnapshot V
  snapshot s = record { profile = profile; records = values s.records }

  -- Each event's sequence is the first event's plus its index.
  unfoldable pub consecutive : ℕ → ℕ → List (LifecycleEvent V) → Bool
  consecutive first_sequence index [] = true
  consecutive first_sequence index (e ∷ es) =
      eqb e.sequence (wrapping_add first_sequence index)
      && consecutive first_sequence (suc index) es

  abbrev pub valid_sequence : List (LifecycleEvent V) → Bool
  valid_sequence [] = false
  valid_sequence (e ∷ es) = consecutive e.sequence 0 (e ∷ es)

  -- The loop of `restore`: `none` if a record is refused.
  unfoldable pub restore_records :
      List (String × LifecycleRecord V)
      → List (LifecycleRecord V)
      → Option (List (String × LifecycleRecord V))
  unfolding consecutive
  restore_records restored [] = some restored
  restore_records restored (r ∷ rs) =
      let rest = restore_records (insert r.task_id r restored) rs in
      if valid_sequence r.events then rest else none

  unfoldable pub restore : LifecycleStore V → LifecycleSnapshot V → Outcome V (Unit {0})
  unfolding restore_records
  restore s snap =
      if snap.profile == profile
      then elim (restore_records [] snap.records) [
        | none ↦ (s, err (conflict "invalid lifecycle snapshot sequence"))
        | some restored ↦ (record s { records = restored }, ok tt)
      ]
      else (s, err (conflict "unsupported lifecycle snapshot profile"))

  -- The first retained sequence is a `u64`.
  abbrev pub StartsInRange : String × LifecycleRecord V → Type 0
  StartsInRange (k, r) = sequence_or_zero (first r.events) < u64_mod

  IsHistory-consecutive :
      (task_id state : String) (f index : ℕ) (e : LifecycleEvent V) (es : List (LifecycleEvent V))
      → e.sequence ≡ wrapping_add f index
      → IsHistory task_id state (e ∷ es)
      → consecutive f index (e ∷ es) ≡ true
  unfolding consecutive
  IsHistory-consecutive t s f index e [] at h = ground arith
  IsHistory-consecutive t s f index e (g ∷ es) at h =
      ground (arith, IsHistory-consecutive t s f (suc index) g es (omega (arith, h.2)) h.4)

  IsHistory-valid_sequence :
      (task_id state : String) (es : List (LifecycleEvent V))
      → sequence_or_zero (first es) < u64_mod
      → IsHistory task_id state es
      → valid_sequence es ≡ true
  IsHistory-valid_sequence t s [] b h = absurd h
  IsHistory-valid_sequence t s (e ∷ es) b h =
      IsHistory-consecutive t s e.sequence 0 e es (omega arith) h

  -- No key of the second map is in the first.
  abbrev IsApart : List (String × LifecycleRecord V) → List (String × LifecycleRecord V) → Type 0
  IsApart acc m = (j : String) (r : LifecycleRecord V) → get j m ≡ some r → get j acc ≡ none

  IsApart-next :
      (k : String) (r : LifecycleRecord V) (acc m : List (String × LifecycleRecord V))
      → get k m ≡ none
      → IsApart acc ((k, r) ∷ m)
      → IsApart (acc ++ (k, r) ∷ []) m
  unfolding get
  IsApart-next k r acc m lone apart j q found =
      ground (arith, eq_iff k j, apart j q, get-append_one j k r acc)

  get-head :
      (k : String) (r : LifecycleRecord V) (m : List (String × LifecycleRecord V))
      → get k ((k, r) ∷ m) ≡ some r
  unfolding get
  get-head k r m = rw (eq_refl k)

  restore_records-values :
      (max_events : ℕ) (acc m : List (String × LifecycleRecord V))
      → IsDistinct m
      → All (IsSound max_events) m
      → All StartsInRange m
      → IsApart acc m
      → restore_records acc (values m) ≡ some (acc ++ m)
  unfolding restore_records
  restore_records-values max_events acc [] d v b apart = rw append-nil
  restore_records-values max_events acc ((k, r) ∷ m) d v b apart =
      let free : get k acc ≡ none = apart k r (get-head k r m) in
      let at_end : insert r.task_id r acc ≡ acc ++ (k, r) ∷ [] =
        subst (λ j. insert j r acc ≡ acc ++ (k, r) ∷ []) (sym v.0.0) (insert_absent k r acc free) in
      rw (IsHistory-valid_sequence k r.state r.events b.0 v.0.3, at_end)
        (restore_records-values max_events (acc ++ (k, r) ∷ []) m d.1 v.1 b.1
            (IsApart-next k r acc m d.0 apart)
          ∙ ap some (append_assoc acc ((k, r) ∷ []) m))

  -- A valid store's snapshot, restored into any store, brings all of its records back.
  pub restore-snapshot :
      (s t : LifecycleStore V)
      → IsValid s
      → All StartsInRange s.records
      → restore t (snapshot s) ≡ (record t { records = s.records }, ok tt)
  unfolding restore snapshot get
  restore-snapshot s t v b = rw (
    eq_refl profile,
    restore_records-values s.max_events [] s.records v.distinct v.sound b (λ _ _ _. refl),
  )
