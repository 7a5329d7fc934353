-- ===== src/Lifecycle/Sqlite/Replies.antt =====
-- The replies of the store of src/service_lifecycle.rs to any calls, whatever the detail of a task's first event.
use iicp_client_rust.Base.{
  ℕ, String, ◌≡◌, refl, ap, ◌∙◌, List, [], ◌∷◌, Option, none, some, Result, ok, err, map,
}
use iicp_client_rust.Base.Words.{ℤ}
use iicp_client_rust.Lifecycle.Types.{LifecycleRecord, LifecycleError, storage}
use iicp_client_rust.Lifecycle.Detail.{Json, content_free_detail}
use iicp_client_rust.Lifecycle.Store
use iicp_client_rust.Lifecycle.Store.{
  LifecycleStore, Outcome, submit, status, transition, events_after, replay, advance, next_event,
  canonical_state, look_up, cut_off, push_bounded, forget_expired, is_expired, accepted_record,
  same_submission,
}
use iicp_client_rust.Lifecycle.Store.Invariant.{
  IsValid, submit-IsValid, status-IsValid, transition-IsValid,
}
use iicp_client_rust.Lifecycle.Sqlite.Agreement.{blank_error}
use iicp_client_rust.Lifecycle.Sqlite.Calls.{
  Call, submit_call, status_call, transition_call, events_call, Reply, submitted, told, moved,
  listed, unless, refused_or, reply, act_store, run_store,
}
use iicp_client_rust.Lifecycle.Sqlite.Details.{
  first_events, first_record, first_store, first_outcome, first_created, map_ok,
}
use iicp_client_rust.Lifecycle.Sqlite.Memory.{
  submit-first, status-first, transition-first, events_after-first,
}

-- A reply, with this detail in the event that accepts a task.
abbrev pub first_reply : {V : Type 0} → V → Reply V → Reply V
first_reply d (submitted result) = submitted (map_ok (first_created d) result)
first_reply d (told result) = told (map_ok (first_record d) result)
first_reply d (moved result) = moved (map_ok (λ e. e) result)
first_reply d (listed result) = listed (map_ok (first_events d) result)

module _ {V : Type 0} (d : V) where
  -- A store and a reply, with this detail in the events that accept a task.
  abbrev first_step : LifecycleStore V × Reply V → LifecycleStore V × Reply V
  first_step (s, answer) = (first_store d s, first_reply d answer)

  module _ {A : Type 0} (f : Result LifecycleError A → Reply V) (g : A → A)
      (shows : (r : Result LifecycleError A) → f (map_ok g r) ≡ first_reply d (f r)) where
    reply-first : (o m : Outcome V A) → m ≡ first_outcome d g o → reply f m ≡ first_step (reply f o)
    reply-first (s, ok a) m e =
        ap (reply f) e
        ∙ ap {B = LifecycleStore V × Reply V} (λ x. (first_store d s, x)) (shows (ok a))
    reply-first (s, err e') m e =
        ap (reply f) e
        ∙ ap {B = LifecycleStore V × Reply V} (λ x. (first_store d s, x))
            (shows (err (blank_error e')))

    unless-first :
        (fault : Option String) (s : LifecycleStore V) (o m : Outcome V A)
        → m ≡ first_outcome d g o
        → reply f (unless fault (first_store d s) m) ≡ first_step (reply f (unless fault s o))
    unless-first none s o m e = reply-first o m e
    unless-first (some message) s o m e = reply-first (s, err (storage message)) _ refl

  module _ (json : Json V) where
    moved-first :
        (fault : Option String) (s : LifecycleStore V) (now : ℕ) (task_id requested : String)
        (stored : Result LifecycleError V)
        → IsValid s
        → reply moved (
            refused_or (first_store d s) stored (λ w.
              unless fault
                (first_store d s)
                (transition (first_store d s) now task_id requested w)))
          ≡ first_step (
              reply moved
                (refused_or s stored (λ w. unless fault s (transition s now task_id requested w))))
    moved-first fault s now task_id requested (err e) v =
        reply-first moved (λ e. e) (λ r. refl) (s, err e) _ refl
    moved-first fault s now task_id requested (ok w) v =
        unless-first moved (λ e. e) (λ r. refl) fault s (transition s now task_id requested w) _
          (transition-first d s now task_id requested w v)

    act_store-first :
        (null : V) (s : LifecycleStore V) (call : Call V)
        → IsValid s
        → act_store json d (first_store d s) call ≡ first_step (act_store json null s call)
    act_store-first null s (submit_call fault now task_id key digest) v =
        unless-first submitted (first_created d) (λ r. refl) fault s _ _
          (submit-first d null s now task_id key digest)
    act_store-first null s (status_call fault now task_id) v =
        unless-first told (first_record d) (λ r. refl) fault s _ _ (status-first d s now task_id)
    act_store-first null s (transition_call fault now task_id requested detail) v =
        moved-first fault s now task_id requested (content_free_detail json detail) v
    act_store-first null s (events_call fault now task_id after) v =
        unless-first listed (first_events d) (λ r. refl) fault s _ _
          (events_after-first d s now task_id after)

    unless-IsValid :
        {A : Type 0} (fault : Option String) (s : LifecycleStore V) (o : Outcome V A)
        → IsValid s
        → IsValid o.0
        → IsValid (unless fault s o).0
    unless-IsValid none s o v w = w
    unless-IsValid (some message) s o v w = v

    moved-IsValid :
        (fault : Option String) (s : LifecycleStore V) (now : ℕ) (task_id requested : String)
        (stored : Result LifecycleError V)
        → IsValid s
        → IsValid
            (refused_or s stored (λ w. unless fault s (transition s now task_id requested w))).0
    moved-IsValid fault s now task_id requested (err e) v = v
    moved-IsValid fault s now task_id requested (ok w) v =
        unless-IsValid fault s _ v (transition-IsValid s now task_id requested w v)

    replayed-same :
        (after : ℤ) (o : Outcome V (LifecycleRecord V))
        → (Store.and_then o (λ s' r. (s', replay r after))).0 ≡ o.0
    replayed-same after (s, ok r) = refl
    replayed-same after (s, err e) = refl

    act_store-IsValid :
        (null : V) (s : LifecycleStore V) (call : Call V)
        → IsValid s
        → IsValid (act_store json null s call).0
    unfolding events_after
    act_store-IsValid null s (submit_call fault now task_id key digest) v =
        unless-IsValid fault s _ v (submit-IsValid null s now task_id key digest v)
    act_store-IsValid null s (status_call fault now task_id) v =
        unless-IsValid fault s _ v (status-IsValid s now task_id v)
    act_store-IsValid null s (transition_call fault now task_id requested detail) v =
        moved-IsValid fault s now task_id requested (content_free_detail json detail) v
    act_store-IsValid null s (events_call fault now task_id after) v =
        unless-IsValid fault s _ v
          (rw (replayed-same after (status s now task_id)) (status-IsValid s now task_id v))

    pub run_store-first :
        (null : V) (s : LifecycleStore V) (calls : List (Call V))
        → IsValid s
        → run_store json d (first_store d s) calls
          ≡ map (first_reply d) (run_store json null s calls)
    unfolding run_store
    run_store-first null s [] v = refl
    run_store-first null s (call ∷ calls) v =
        let o = act_store json null s call in
        let same = act_store-first null s call v in
        ap (λ w. w.1 ∷ run_store json d w.0 calls) same
        ∙ ap (λ rs. first_reply d o.1 ∷ rs)
            (run_store-first null o.0 calls (act_store-IsValid null s call v))
