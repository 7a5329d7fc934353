-- ===== src/Lifecycle/Observer/Polls.antt =====
-- What an observer of src/service_lifecycle.rs reads from the bounded buffer.
use iicp_client_rust.Base.{
  ℕ, zero, suc, ◌-◌, ◌<◌, ◌≤◌, ◌+◌, String, ◌≡◌, refl, sym, List, [], ◌∷◌, some, ok, arith, ltb,
  length, length-drop, drop, drop-nil, first, retain, ap, ◌∙◌, inl, inr, List-cases,
}
use iicp_client_rust.Lifecycle.Types.{LifecycleEvent}
use iicp_client_rust.Lifecycle.Observer.{
  BoundedObserverBuffer, new, subscribe, disconnect, publish, poll,
}
use iicp_client_rust.Lifecycle.Observer.Log.{
  IsRising, Refines, log_publish, new-Refines, publish-Refines, subscribe-Refines,
  disconnect-Refines,
}

module _ {V : Type 0} where
  IsRising-first :
      (n : ℕ) (e : LifecycleEvent V) (es : List (LifecycleEvent V)) (f : LifecycleEvent V)
      → IsRising (e ∷ es)
      → first (drop n es) ≡ some f
      → e.sequence < f.sequence
  IsRising-first n e [] f r h = ground (arith, drop-nil {A = LifecycleEvent V} n)
  IsRising-first zero e (g ∷ es) f r h = ground arith
  IsRising-first (suc n) e (g ∷ es) f r h = omega (arith, r.0, IsRising-first n g es f r.1 h)

  IsRising-tail :
      (e : LifecycleEvent V) (es : List (LifecycleEvent V)) → IsRising (e ∷ es) → IsRising es
  IsRising-tail e [] r = tt
  IsRising-tail e (f ∷ es) r = r.1

  -- Nothing above `after` stands before the first event that is kept.
  retain-drop :
      (n after : ℕ) (log : List (LifecycleEvent V)) (f : LifecycleEvent V)
      → IsRising log
      → first (drop n log) ≡ some f
      → f.sequence ≤ after + 1
      → retain (λ e. ltb after e.sequence) (drop n log) ≡ retain (λ e. ltb after e.sequence) log
  retain-drop zero after log f r h le = refl
  retain-drop (suc n) after [] f r h le = refl
  retain-drop (suc n) after (e ∷ es) f r h le =
      ground
        (arith, IsRising-first n e es f r h, retain-drop n after es f (IsRising-tail e es r) h le)

  nothing_kept :
      (n : ℕ) (log : List (LifecycleEvent V)) → 1 ≤ n → drop (length log - n) log ≡ [] → log ≡ []
  nothing_kept n [] h e = refl
  nothing_kept n (x ∷ xs) h e =
      absurd (omega (arith, ap length e, length-drop (length (x ∷ xs) - n) (x ∷ xs)))

  -- A poll that is answered gives exactly what was ever published after the sequence, also where the
  -- buffer has dropped events.
  pub poll-Refines :
      (b : BoundedObserverBuffer V) (log : List (LifecycleEvent V)) (after : ℕ)
      (es : List (LifecycleEvent V))
      → Refines b log
      → poll b after ≡ ok es
      → es ≡ retain (λ e. ltb after e.sequence) log
  unfolding poll
  poll-Refines b log after es v h = elim (List-cases b.events) [
    | inl e ↦
        let nothing : log ≡ [] = nothing_kept b.capacity log v.room (sym v.suffix ∙ e) in
        rw nothing (ground arith)
    | inr (f, rest, e) ↦
        let shown : es ≡ retain (λ x. ltb after x.sequence) b.events = ground arith in
        let near : f.sequence ≤ after + 1 = ground arith in
        let front : first (drop (length log - b.capacity) log) ≡ some f =
          ap first (sym v.suffix) ∙ ap first e in
        shown
        ∙ ap (retain (λ x. ltb after x.sequence)) v.suffix
        ∙ retain-drop (length log - b.capacity) after log f v.rising front near
  ]

-- A call on the buffer.
pub data Action (V : Type 0) : Type 0 where
  subscribes : String → Action V
  disconnects : String → Action V
  publishes : LifecycleEvent V → Action V

module _ {V : Type 0} where
  abbrev pub act : BoundedObserverBuffer V → Action V → BoundedObserverBuffer V
  act b (subscribes id) = (subscribe b id).0
  act b (disconnects id) = disconnect b id
  act b (publishes e) = (publish b e).0

  -- A history of calls on the buffer, and the events that it was told in order.
  unfoldable pub run : BoundedObserverBuffer V → List (Action V) → BoundedObserverBuffer V
  run b [] = b
  run b (a ∷ actions) = run (act b a) actions

  abbrev pub act_log : List (LifecycleEvent V) → Action V → List (LifecycleEvent V)
  act_log log (subscribes id) = log
  act_log log (disconnects id) = log
  act_log log (publishes e) = (log_publish log e).0

  unfoldable pub run_log : List (LifecycleEvent V) → List (Action V) → List (LifecycleEvent V)
  run_log log [] = log
  run_log log (a ∷ actions) = run_log (act_log log a) actions

  act-Refines :
      (b : BoundedObserverBuffer V) (log : List (LifecycleEvent V)) (a : Action V)
      → Refines b log
      → Refines (act b a) (act_log log a)
  act-Refines b log (subscribes id) v = subscribe-Refines b log id v
  act-Refines b log (disconnects id) v = disconnect-Refines b log id v
  act-Refines b log (publishes e) v = (publish-Refines b log e v).0

  run-Refines :
      (b : BoundedObserverBuffer V) (log : List (LifecycleEvent V)) (actions : List (Action V))
      → Refines b log
      → Refines (run b actions) (run_log log actions)
  unfolding run run_log
  run-Refines b log [] v = v
  run-Refines b log (a ∷ actions) v =
      run-Refines (act b a) (act_log log a) actions (act-Refines b log a v)

  -- After any calls on a new buffer, a poll that is answered misses no event that was accepted, and
  -- there are no more observers than the buffer's limit.
  pub poll-run :
      (capacity max_observers : ℕ) (actions : List (Action V)) (after : ℕ)
      (es : List (LifecycleEvent V))
      → poll (run (new capacity max_observers) actions) after ≡ ok es
      → (es ≡ retain (λ e. ltb after e.sequence) (run_log [] actions))
        × (length (run (new capacity max_observers) actions).observers
            ≤ (run (new capacity max_observers) actions).max_observers)
  poll-run capacity max_observers actions after es h =
      let v =
        run-Refines (new capacity max_observers) [] actions (new-Refines capacity max_observers) in
      (poll-Refines _ (run_log [] actions) after es v h, v.observed)
