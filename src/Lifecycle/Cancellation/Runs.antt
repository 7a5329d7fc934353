-- ===== src/Lifecycle/Cancellation/Runs.antt =====
-- Every call on the cancellation registry of src/service_lifecycle.rs keeps its memory bounded, whatever other
-- threads do meanwhile.
use iicp_client_rust.Base.{String, ◌≡◌, ap, Bool, List, [], ◌∷◌, Option, All}
use iicp_client_rust.Lifecycle.Cancellation.{
  Registry, Others, register, report, complete_with_outcome, request,
}
use iicp_client_rust.Lifecycle.Cancellation.Evidence.{IsTracked, remember-IsTracked}
use iicp_client_rust.Lifecycle.Cancellation.Access.{
  Access, inserts_handler, removes_handler, inserts_signal, removes_signal, remembers, Accesses,
  here, next, Fair, register-Accesses, report-Accesses, complete_with_outcome-Accesses,
  request-Accesses,
}

-- A call on the registry, with what other threads do between its locks; `request` with what the handler
-- answers then.
pub data Action (H : Type 0) : Type 0 where
  registers : Others H → String → H → Action H
  reports : Others H → String → String → Action H
  completes : Others H → String → Option String → Action H
  requests : (H → Bool) → Others H → String → String → Action H

module _ {H : Type 0} where
  abbrev pub others_of : Action H → Others H
  others_of (registers others task_id handler) = others
  others_of (reports others task_id outcome) = others
  others_of (completes others task_id outcome) = others
  others_of (requests call others task_id state) = others

  abbrev pub act : Registry H → Action H → Registry H
  act g (registers others task_id handler) = register others g task_id handler
  act g (reports others task_id outcome) = (report others g task_id outcome).0
  act g (completes others task_id outcome) = (complete_with_outcome others g task_id outcome).0
  act g (requests call others task_id state) = (request call others g task_id state).0

  unfoldable pub run : Registry H → List (Action H) → Registry H
  run g [] = g
  run g (a ∷ actions) = run (act g a) actions

  -- Handlers and signals play no part in the memory.
  same-IsTracked :
      (s t : Registry H)
      → t.evidence ≡ s.evidence
      → t.evidence_order ≡ s.evidence_order
      → IsTracked s
      → IsTracked t
  same-IsTracked s t same order v = record {
    bounded = rw order v.bounded;
    distinct = rw order v.distinct;
    same = λ k. rw (same, order) (v.same k);
  }

  Access-IsTracked : {s t : Registry H} → Access s t → IsTracked s → IsTracked t
  Access-IsTracked {s} {t} (inserts_handler task_id handler e) v =
      same-IsTracked s t (ap (λ g. g.evidence) e) (ap (λ g. g.evidence_order) e) v
  Access-IsTracked {s} {t} (removes_handler task_id e) v =
      same-IsTracked s t (ap (λ g. g.evidence) e) (ap (λ g. g.evidence_order) e) v
  Access-IsTracked {s} {t} (inserts_signal task_id e) v =
      same-IsTracked s t (ap (λ g. g.evidence) e) (ap (λ g. g.evidence_order) e) v
  Access-IsTracked {s} {t} (removes_signal task_id e) v =
      same-IsTracked s t (ap (λ g. g.evidence) e) (ap (λ g. g.evidence_order) e) v
  Access-IsTracked {s} {t} (remembers evidence e) v = rw e (remember-IsTracked s evidence v)

  Accesses-IsTracked : {s t : Registry H} → Accesses s t → IsTracked s → IsTracked t
  Accesses-IsTracked here v = v
  Accesses-IsTracked (next before access) v = Access-IsTracked access (Accesses-IsTracked before v)

  -- A call, with whatever happens between its locks, is accesses one after the other.
  act-Accesses : (g : Registry H) (a : Action H) → Fair (others_of a) → Accesses g (act g a)
  act-Accesses g (registers others task_id handler) fair =
      register-Accesses others g task_id handler fair
  act-Accesses g (reports others task_id outcome) fair =
      report-Accesses others g task_id outcome fair
  act-Accesses g (completes others task_id outcome) fair =
      complete_with_outcome-Accesses others g task_id outcome fair
  act-Accesses g (requests call others task_id state) fair =
      request-Accesses call others g task_id state fair

  -- After any calls of a thread, whatever other threads do to the registry between the locks of each call by
  -- calls of their own, the registry holds evidence for exactly the tasks that its queue names, each once, and
  -- for at most 256 of them.
  pub run-IsTracked :
      (g : Registry H) (actions : List (Action H))
      → IsTracked g
      → All (λ a. Fair (others_of a)) actions
      → IsTracked (run g actions)
  unfolding run
  run-IsTracked g [] v fair = v
  run-IsTracked g (a ∷ actions) v (fair, rest) =
      run-IsTracked (act g a) actions (Accesses-IsTracked (act-Accesses g a fair) v) rest
