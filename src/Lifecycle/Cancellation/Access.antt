-- ===== src/Lifecycle/Cancellation/Access.antt =====
-- The accesses that the calls on the cancellation registry of src/service_lifecycle.rs are made of.
use iicp_client_rust.Base.{
  ℕ, ◌+◌, String, ◌≡◌, refl, Bool, Option, none, some, one_of, inl, inr, Bool-cases,
}
use iicp_client_rust.Base.Dict.{insert, remove, contains_key}
use iicp_client_rust.Lifecycle.States.{terminal}
use iicp_client_rust.Lifecycle.Cancellation.{
  CancellationEvidence, Registry, Others, known_outcomes, answers, register, remember, report,
  settle, complete_with_outcome, respond, request,
}

-- What a thread does under one lock, or under the two that remember holds together.
pub data Access {H : Type 0} (s t : Registry H) : Type 0 where
  inserts_handler :
      (task_id : String) (handler : H)
      → t ≡ record s { handlers = insert task_id handler s.handlers }
      → Access s t
  removes_handler :
      (task_id : String) → t ≡ record s { handlers = remove task_id s.handlers } → Access s t
  inserts_signal :
      (task_id : String) → t ≡ record s { signalled = insert task_id tt s.signalled } → Access s t
  removes_signal :
      (task_id : String) → t ≡ record s { signalled = remove task_id s.signalled } → Access s t
  remembers : (e : CancellationEvidence) → t ≡ remember s e → Access s t

-- Accesses by any threads, one after the other.
pub data Accesses {H : Type 0} (s : Registry H) : Registry H → Type 0 where
  here : Accesses s s
  next : {t u : Registry H} → Accesses s t → Access t u → Accesses s u

-- Other threads only access the registry as its calls do.
abbrev pub Fair : {H : Type 0} → Others H → Type 0
Fair {H} others = (n : ℕ) (g : Registry H) → Accesses g (others n g)

module _ {H : Type 0} where
  pub join : {s t u : Registry H} → Accesses s t → Accesses t u → Accesses s u
  join a here = a
  join a (next b access) = next (join a b) access

  pub register-Accesses :
      (others : Others H) (g : Registry H) (task_id : String) (handler : H)
      → Fair others
      → Accesses g (register others g task_id handler)
  unfolding register
  register-Accesses others g task_id handler fair =
      next (join (next here (inserts_handler task_id handler refl)) (fair 0 _))
        (removes_signal task_id refl)

  pub report-Accesses :
      (others : Others H) (g : Registry H) (task_id outcome : String)
      → Fair others
      → Accesses g (report others g task_id outcome).0
  unfolding report
  report-Accesses others g task_id outcome fair =
      elim (Bool-cases (one_of known_outcomes outcome)) [
        | inl known ↦ rw known (next (fair 0 g) (remembers _ refl))
        | inr unknown ↦ rw unknown here
      ]

  settle-Accesses :
      (g : Registry H) (others : Registry H → Registry H) (task_id : String)
      (outcome : Option String) (current : Option CancellationEvidence)
      → Accesses g (others g)
      → Accesses g (settle g others task_id outcome current).0
  settle-Accesses g others task_id none none fair = here
  settle-Accesses g others task_id none (some e) fair = next fair (remembers _ refl)
  settle-Accesses g others task_id (some o) current fair = next fair (remembers _ refl)

  pub complete_with_outcome-Accesses :
      (others : Others H) (g : Registry H) (task_id : String) (outcome : Option String)
      → Fair others
      → Accesses g (complete_with_outcome others g task_id outcome).0
  unfolding complete_with_outcome
  complete_with_outcome-Accesses others g task_id outcome fair =
      let second = join (next here (removes_handler task_id refl)) (fair 0 _) in
      let third = join (next second (removes_signal task_id refl)) (fair 1 _) in
      join third (settle-Accesses _ (others 2) task_id outcome _ (fair 2 _))

  respond-Accesses :
      (call : H → Bool) (others : Others H) (g : Registry H) (task_id : String) (found : Option H)
      → Fair others
      → Accesses g (respond call others g task_id found).0
  unfolding respond
  respond-Accesses call others g task_id found fair = elim (Bool-cases (answers call found)) [
    | inl willing ↦ rw willing (
        join (join (next here (inserts_signal task_id refl)) (fair 0 _)) (
          report-Accesses (λ n. others (n + 1)) _ task_id "cancel_requested"
            (λ n g. fair (n + 1) g)))
    | inr unwilling ↦ rw unwilling (complete_with_outcome-Accesses others g task_id _ fair)
  ]

  pub request-Accesses :
      (call : H → Bool) (others : Others H) (g : Registry H) (task_id state : String)
      → Fair others
      → Accesses g (request call others g task_id state).0
  unfolding request
  request-Accesses call others g task_id state fair = elim (Bool-cases (terminal state)) [
    | inl done ↦ rw done (complete_with_outcome-Accesses others g task_id _ fair)
    | inr live ↦ elim (Bool-cases (contains_key task_id g.signalled)) [
      | inl known ↦ rw (live, known) here
      | inr new ↦
          rw (live, new)
            (join (join (fair 0 g) (fair 1 _))
              (respond-Accesses call (λ n. others (n + 2)) _ task_id _ (λ n g. fair (n + 2) g)))
    ]
  ]
