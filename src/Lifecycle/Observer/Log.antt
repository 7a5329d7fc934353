-- ===== src/Lifecycle/Observer/Log.antt =====
-- The observer buffer of src/service_lifecycle.rs against a log that forgets nothing.
use iicp_client_rust.Base.{
  ℕ, suc, ◌+◌, ◌-◌, ◌<◌, ◌≤◌, max, String, ◌≡◌, refl, sym, ◌∙◌, ap, false, List, [], ◌∷◌, ◌++◌, ok,
  err, arith, ltb, length, drop, drop-nil, drop-append_one, drop-drop, last, if◌then◌else◌,
  length-append, length-drop, last-drop, inl, inr, Bool-cases, Result,
}
use iicp_client_rust.Base.Dict.{length-insert_le, length-insert_present, length-remove_le}
use iicp_client_rust.Lifecycle.Types.{LifecycleEvent, LifecycleError, conflict}
use iicp_client_rust.Lifecycle.Observer.{
  BoundedObserverBuffer, new, subscribe, disconnect, trim, is_stale, publish,
}

-- Each event's sequence is above the one before.
abbrev pub IsRising : {V : Type 0} → List (LifecycleEvent V) → Type 0
IsRising [] = Unit
IsRising (e ∷ []) = Unit
IsRising (e ∷ f ∷ es) = (e.sequence < f.sequence) × IsRising (f ∷ es)

-- What the buffer is to be: the last events of everything that was published.
pub record Refines {V : Type 0} (b : BoundedObserverBuffer V) (log : List (LifecycleEvent V))
    : Type 0 where
  pub room : 1 ≤ b.capacity
  pub suffix : b.events ≡ drop (length log - b.capacity) log
  pub rising : IsRising log
  pub observed : length b.observers ≤ b.max_observers

module _ {V : Type 0} where
  -- Publishing to the log.
  abbrev pub log_publish :
      List (LifecycleEvent V)
      → LifecycleEvent V
      → List (LifecycleEvent V) × Result LifecycleError (Unit {0})
  log_publish log e =
      if is_stale (last log) e
      then (log, err (conflict "observer sequence must increase"))
      else (log ++ e ∷ [], ok tt)

  trim-drop : (n : ℕ) (es : List (LifecycleEvent V)) → trim n es ≡ drop (length es - n) es
  unfolding trim
  trim-drop n [] = sym (drop-nil (0 - n))
  trim-drop n (e ∷ es) = elim (Bool-cases (ltb n (length (e ∷ es)))) [
    | inl over ↦
        let one_off : length (e ∷ es) - n ≡ suc (length es - n) = ground arith in
        rw (over, one_off) (trim-drop n es)
    | inr fits ↦ let none_off : length (e ∷ es) - n ≡ 0 = ground arith in rw (fits, none_off)
  ]

  last-kept :
      (n : ℕ) (log : List (LifecycleEvent V)) → 1 ≤ n → last (drop (length log - n) log) ≡ last log
  last-kept n [] h = ap last (drop-nil (0 - n))
  last-kept n (e ∷ es) h = last-drop (length (e ∷ es) - n) (e ∷ es) (omega arith)

  -- One more event, seen through the buffer.
  trim-append_one :
      (n : ℕ) (log : List (LifecycleEvent V)) (e : LifecycleEvent V)
      → trim n (drop (length log - n) log ++ e ∷ [])
        ≡ drop (length (log ++ e ∷ []) - n) (log ++ e ∷ [])
  trim-append_one n log e =
      let k = length log - n in
      let whole = log ++ e ∷ [] in
      let kept = drop k log ++ e ∷ [] in
      let count : k + (length kept - n) ≡ length whole - n = omega (
        arith,
        length-append (drop k log) (e ∷ []),
        length-append log (e ∷ []),
        length-drop k log,
      ) in
      trim-drop n kept
      ∙ ap (drop (length kept - n)) (sym (drop-append_one k log e (omega arith)))
      ∙ drop-drop (length kept - n) k whole
      ∙ ap (λ c. drop c whole) count

  IsRising-append_one :
      (es : List (LifecycleEvent V)) (e : LifecycleEvent V)
      → is_stale (last es) e ≡ false
      → IsRising es
      → IsRising (es ++ e ∷ [])
  IsRising-append_one [] e h r = tt
  IsRising-append_one (f ∷ []) e h r = (ground arith, tt)
  IsRising-append_one (f ∷ g ∷ es) e h r = (r.0, IsRising-append_one (g ∷ es) e h r.1)

  pub new-Refines : (capacity max_observers : ℕ) → Refines {V = V} (new capacity max_observers) []
  unfolding new
  new-Refines capacity max_observers = record {
    room = omega arith;
    suffix = sym (drop-nil (0 - max capacity 1));
    rising = tt;
    observed = omega arith;
  }

  -- `publish` accepts what the log accepts, with the same answer, and keeps showing its end.
  pub publish-Refines :
      (b : BoundedObserverBuffer V) (log : List (LifecycleEvent V)) (e : LifecycleEvent V)
      → Refines b log
      → Refines (publish b e).0 (log_publish log e).0 × ((publish b e).1 ≡ (log_publish log e).1)
  unfolding publish
  publish-Refines b log e v =
      let same : last b.events ≡ last log = ap last v.suffix ∙ last-kept b.capacity log v.room in
      let pushed =
        ap (λ es. trim b.capacity (es ++ e ∷ [])) v.suffix ∙ trim-append_one b.capacity log e in
      elim (Bool-cases (is_stale (last log) e)) [
        | inl stale ↦ rw (same, stale) (v, refl)
        | inr later ↦
            rw (same, later)
              (
                record {
                  room = v.room;
                  suffix = pushed;
                  rising = IsRising-append_one log e later v.rising;
                  observed = v.observed;
                },
                refl,
              )
      ]

  pub subscribe-Refines :
      (b : BoundedObserverBuffer V) (log : List (LifecycleEvent V)) (id : String)
      → Refines b log
      → Refines (subscribe b id).0 log
  unfolding subscribe
  subscribe-Refines b log id v =
      ground (arith, length-insert_le id tt b.observers, length-insert_present id tt b.observers)

  pub disconnect-Refines :
      (b : BoundedObserverBuffer V) (log : List (LifecycleEvent V)) (id : String)
      → Refines b log
      → Refines (disconnect b id) log
  unfolding disconnect
  disconnect-Refines b log id v = ground (arith, length-remove_le id b.observers)
