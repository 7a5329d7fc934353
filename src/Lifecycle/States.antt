-- ===== src/Lifecycle/States.antt =====
-- The task states of src/service_lifecycle.rs and the edges between them.
use iicp_client_rust.Base.{
  String, ◌==◌, ◌≡◌, refl, Bool, true, false, ◌||◌, inl, inr, List, [], ◌∷◌, one_of, all,
  one_of-IsOneOf, one_of-all, if◌then◌else◌, Bool-cases, arith,
}

abbrev pub terminal_states : List String
terminal_states = "rejected" ∷ "completed" ∷ "failed" ∷ "cancelled" ∷ "expired" ∷ []

unfoldable pub terminal : String → Bool
terminal state = one_of terminal_states state

-- The states that the `match` on the current state lets a task go to.
unfoldable pub successors : String → List String
successors from =
    if from == "submitted"
    then "accepted" ∷ "rejected" ∷ "expired" ∷ []
    else if from == "accepted"
    then "queued" ∷ "running" ∷ "completed" ∷ "cancelled" ∷ "failed" ∷ "expired" ∷ []
    else if from == "queued"
    then "running" ∷ "waiting" ∷ "cancelled" ∷ "failed" ∷ "expired" ∷ []
    else if from == "running"
    then "waiting" ∷ "streaming" ∷ "completed" ∷ "cancelled" ∷ "failed" ∷ "expired" ∷ []
    else if from == "waiting"
    then "queued" ∷ "running" ∷ "cancelled" ∷ "failed" ∷ "expired" ∷ []
    else if from == "streaming"
    then "streaming" ∷ "waiting" ∷ "completed" ∷ "cancelled" ∷ "failed" ∷ "expired" ∷ []
    else []

unfoldable pub legal_transition : String → String → Bool
unfolding successors
legal_transition from to = one_of (successors from) to

-- No edge leaves a terminal state.
pub legal_transition-of_terminal :
    (from to : String) → terminal from ≡ true → legal_transition from to ≡ false
unfolding terminal legal_transition
legal_transition-of_terminal from to h = elim (one_of-IsOneOf terminal_states from h) [
  | inl e ↦ rw e
  | inr (inl e) ↦ rw e
  | inr (inr (inl e)) ↦ rw e
  | inr (inr (inr (inl e))) ↦ rw e
  | inr (inr (inr (inr (inl e)))) ↦ rw e
  | inr (inr (inr (inr (inr e)))) ↦ absurd e
]

-- An edge out of a state shows that the state is not terminal.
pub terminal-of_edge : (from to : String) → legal_transition from to ≡ true → terminal from ≡ false
terminal-of_edge from to h = elim (Bool-cases (terminal from)) [
  | inl t ↦ ground (arith, legal_transition-of_terminal from to t)
  | inr f ↦ f
]

-- The states in which the store holds a task that is not finished.
abbrev pub live_states : List String
live_states = "accepted" ∷ "queued" ∷ "running" ∷ "waiting" ∷ "streaming" ∷ []

unfoldable pub is_known : String → Bool
unfolding terminal
is_known s = terminal s || one_of live_states s

successors-is_known : (from : String) → all is_known (successors from) ≡ true
unfolding successors is_known
successors-is_known from = ground arith

-- Every edge ends in a live or a terminal state.
pub legal_transition-is_known :
    (from to : String) → legal_transition from to ≡ true → is_known to ≡ true
unfolding legal_transition
legal_transition-is_known from to h =
    one_of-all (successors from) is_known to (successors-is_known from) h

-- A known state that is not terminal can be cancelled.
pub legal_transition-cancelled :
    (s : String) → is_known s ≡ true → terminal s ≡ false → legal_transition s "cancelled" ≡ true
unfolding is_known
legal_transition-cancelled s k t =
    one_of-all live_states (λ from. legal_transition from "cancelled") s
      (unfold legal_transition in refl) (rw t at k)
