-- ===== src/Lifecycle/Store/History.antt =====
-- The events that a record of src/service_lifecycle.rs retains, as a path through the states.
use iicp_client_rust.Base.{
  ℕ, zero, suc, ◌-◌, ◌≤◌, ◌<◌, String, ◌≡◌, refl, ◌∙◌, true, false, List, [], ◌∷◌, ◌++◌, arith,
  length, drop, last, length-append, length-drop, Bool-cases, inl, inr, ltb→lt, ltb,
}
use iicp_client_rust.Base.Words.{wrapping_add}
use iicp_client_rust.Lifecycle.Types.{LifecycleEvent, sequence_or_zero}
use iicp_client_rust.Lifecycle.States.{terminal, legal_transition, terminal-of_edge}
use iicp_client_rust.Lifecycle.Store.{push_bounded}

-- The events belong to the task, their sequences follow one another, each state is reached from
-- the one before by an edge, no event but the last is final, and the last is in the given state and
-- is final just when that state is terminal.
abbrev pub IsHistory : {V : Type 0} → String → String → List (LifecycleEvent V) → Type 0
IsHistory task_id state [] = ⊥
IsHistory task_id state (e ∷ []) =
    (e.task_id ≡ task_id) × (e.state ≡ state) × (e.is_final ≡ terminal state)
IsHistory task_id state (e ∷ f ∷ es) =
    (e.task_id ≡ task_id)
    × (e.is_final ≡ false)
    × (f.sequence ≡ wrapping_add e.sequence 1)
    × (legal_transition e.state f.state ≡ true)
    × IsHistory task_id state (f ∷ es)

module _ {V : Type 0} where
  IsHistory-drop :
      (n : ℕ) (task_id state : String) (es : List (LifecycleEvent V))
      → n < length es
      → IsHistory task_id state es
      → IsHistory task_id state (drop n es)
  IsHistory-drop zero t s es h v = v
  IsHistory-drop (suc n) t s [] h v = v
  IsHistory-drop (suc n) t s (e ∷ []) h v = absurd (omega arith)
  IsHistory-drop (suc n) t s (e ∷ f ∷ es) h v = IsHistory-drop n t s (f ∷ es) (omega arith) v.4

  IsHistory-append_one :
      (task_id state : String) (es : List (LifecycleEvent V)) (e : LifecycleEvent V)
      → legal_transition state e.state ≡ true
      → e.task_id ≡ task_id
      → e.is_final ≡ terminal e.state
      → e.sequence ≡ wrapping_add (sequence_or_zero (last es)) 1
      → IsHistory task_id state es
      → IsHistory task_id e.state (es ++ e ∷ [])
  IsHistory-append_one t s [] e edge id fin seq v = absurd v
  IsHistory-append_one t s (f ∷ []) e edge id fin seq v =
      (v.0, v.2 ∙ terminal-of_edge s e.state edge, seq, rw v.1 edge, (id, refl, fin))
  IsHistory-append_one t s (f ∷ g ∷ es) e edge id fin seq v =
      (v.0, v.1, v.2, v.3, IsHistory-append_one t s (g ∷ es) e edge id fin seq v.4)

  -- What `transition` pushes keeps the history, whatever falls off its front.
  pub push_bounded-IsHistory :
      (max_events : ℕ) (task_id state : String) (es : List (LifecycleEvent V))
      (e : LifecycleEvent V)
      → 1 ≤ max_events
      → legal_transition state e.state ≡ true
      → e.task_id ≡ task_id
      → e.is_final ≡ terminal e.state
      → e.sequence ≡ wrapping_add (sequence_or_zero (last es)) 1
      → IsHistory task_id state es
      → IsHistory task_id e.state (push_bounded max_events es e)
  unfolding push_bounded
  push_bounded-IsHistory m t s es e pos edge id fin seq v =
      let whole = IsHistory-append_one t s es e edge id fin seq v in
      elim (Bool-cases (ltb m (length (es ++ e ∷ [])))) [
        | inl over ↦ rw over (
            IsHistory-drop _ t e.state _ (omega (arith, ltb→lt _ _ over, length-append es (e ∷ [])))
              whole)
        | inr fits ↦ rw fits whole
      ]

  pub length-push_bounded-le :
      (max_events : ℕ) (es : List (LifecycleEvent V)) (e : LifecycleEvent V)
      → length (push_bounded max_events es e) ≤ max_events
  unfolding push_bounded
  length-push_bounded-le m es e =
      ground (arith, length-drop (length (es ++ e ∷ []) - m) (es ++ e ∷ []))
