-- ===== src/Lifecycle/Cancellation.antt =====
-- `BackendCancellationRegistry` of src/service_lifecycle.rs. The four maps stand in one state. A call takes
-- several locks one after the other, and `others` is what other threads do between them; `remember` holds both
-- of its locks together. `H` is the type of cancel handlers; a handler is code of the caller, and what it
-- answers when it is called is an argument of `request`.
pub mod Access
pub mod Evidence
pub mod Runs
use Prim.Native.String.{◌++◌ as append}
use iicp_client_rust.Base.{
  ℕ, ◌+◌, String, ◌==◌, Bool, true, false, not, ◌||◌, List, [], ◌∷◌, ◌++◌, Option, none, some,
  Result, ok, err, leb, length, if◌then◌else◌, one_of,
}
use iicp_client_rust.Base.Dict.{get, insert, remove, contains_key, is_some}
use iicp_client_rust.Lifecycle.States.{terminal}

pub record CancellationEvidence : Type 0 where
  pub task_id : String
  pub outcome : String
  pub cleanup_complete : Bool

pub record Registry (H : Type 0) : Type 0 where
  pub handlers : List (String × H)
  pub signalled : List (String × Unit {0})
  pub evidence : List (String × CancellationEvidence)
  pub evidence_order : List String

abbrev pub known_outcomes : List String
known_outcomes =
    "cancel_requested" ∷ "transport_aborted" ∷ "backend_acknowledged" ∷ "execution_stopped"
    ∷ "cancel_unsupported" ∷ "already_terminal" ∷ []

abbrev pub evidence_limit : ℕ
evidence_limit = 256

-- `is_some_and(|current| current.cleanup_complete)`.
abbrev pub was_cleaned : Option CancellationEvidence → Bool
was_cleaned none = false
was_cleaned (some e) = e.cleanup_complete

-- The outcome that was given, or the one on record, or none.
abbrev pub outcome_or : Option String → Option CancellationEvidence → String
outcome_or (some outcome) current = outcome
outcome_or none (some e) = e.outcome
outcome_or none none = "cancel_unsupported"

-- No handler, or one that refuses, answers no.
abbrev pub answers : {H : Type 0} → (H → Bool) → Option H → Bool
answers call none = false
answers call (some handler) = call handler

abbrev pub completed : String → Option String → Option CancellationEvidence → CancellationEvidence
completed task_id outcome current = record {
  task_id = task_id;
  outcome = outcome_or outcome current;
  cleanup_complete = true;
}

-- What other threads do to the registry between the locks of a call, one gap after the other.
abbrev pub Others : Type 0 → Type 0
Others H = ℕ → Registry H → Registry H

module _ {H : Type 0} where
  unfoldable pub empty : Registry H
  empty = record { handlers = []; signalled = []; evidence = []; evidence_order = [] }

  unfoldable pub register : Others H → Registry H → String → H → Registry H
  register others g task_id handler =
      let met = others 0 (record g { handlers = insert task_id handler g.handlers }) in
      record met { signalled = remove task_id met.signalled }

  -- Makes room for a new task's evidence: the oldest task's is given up where the limit is met.
  unfoldable pub evict : Registry H → List String → Registry H
  evict g [] = g
  evict g (oldest ∷ order) =
      if leb evidence_limit (length (oldest ∷ order))
      then record g { evidence = remove oldest g.evidence; evidence_order = order }
      else g

  unfoldable pub remember : Registry H → CancellationEvidence → Registry H
  unfolding evict
  remember g e =
      if contains_key e.task_id g.evidence
      then record g { evidence = insert e.task_id e g.evidence }
      else (let g' = evict g g.evidence_order in
          record g' {
            evidence = insert e.task_id e g'.evidence;
            evidence_order = g'.evidence_order ++ e.task_id ∷ [];
          })

  -- The evidence is read under one lock and remembered under later ones.
  unfoldable pub report :
      Others H → Registry H → String → String → Registry H × Result String CancellationEvidence
  report others g task_id outcome =
      if one_of known_outcomes outcome
      then (let e : CancellationEvidence = record {
        task_id = task_id;
        outcome = outcome;
        cleanup_complete = was_cleaned (get task_id g.evidence);
      } in
          (remember (others 0 g) e, ok e))
      else (g, err (append "unsupported cancellation evidence: " outcome))

  -- What is left once the evidence on record was read.
  abbrev pub settle :
      Registry H
      → (Registry H → Registry H)
      → String
      → Option String
      → Option CancellationEvidence
      → Registry H × CancellationEvidence
  settle g others task_id none none = (g, completed task_id none none)
  settle g others task_id (some o) current =
      (remember (others g) (completed task_id (some o) current), completed task_id (some o) current)
  settle g others task_id none (some e) =
      (remember (others g) (completed task_id none (some e)), completed task_id none (some e))

  unfoldable pub complete_with_outcome :
      Others H → Registry H → String → Option String → Registry H × CancellationEvidence
  complete_with_outcome others g task_id outcome =
      let second = others 0 (record g { handlers = remove task_id g.handlers }) in
      let third = others 1 (record second { signalled = remove task_id second.signalled }) in
      settle third (others 2) task_id outcome (get task_id third.evidence)

  unfoldable pub complete : Others H → Registry H → String → Registry H
  complete others g task_id = (complete_with_outcome others g task_id none).0

  -- What is left of a request once its handler was looked up, and called if there is one.
  unfoldable pub respond :
      (H → Bool) → Others H → Registry H → String → Option H → Registry H × String
  respond call others g task_id found =
      if answers call found
      then (let signals = record g { signalled = insert task_id tt g.signalled } in
          (
            (report (λ n. others (n + 1)) (others 0 signals) task_id "cancel_requested").0,
            "cancel_signalled",
          ))
      else (
        (complete_with_outcome others g task_id (some "cancel_unsupported")).0,
        "cancel_unsupported",
      )

  -- `call` is what a handler answers now; it is called with no lock held.
  unfoldable pub request :
      (H → Bool) → Others H → Registry H → String → String → Registry H × String
  request call others g task_id state =
      if terminal state
      then (
        (complete_with_outcome others g task_id (some "already_terminal")).0,
        "already_terminal",
      )
      else if contains_key task_id g.signalled
      then (g, "cancel_signalled")
      else let second = others 0 g in
        respond call (λ n. others (n + 2)) (others 1 second) task_id (get task_id second.handlers)
