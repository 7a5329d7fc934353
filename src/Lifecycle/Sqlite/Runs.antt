-- ===== src/Lifecycle/Sqlite/Runs.antt =====
-- Any calls on a new database of src/service_lifecycle_sqlite.rs, beside the same calls on a new store of
-- src/service_lifecycle.rs.
use iicp_client_rust.Base.{
  ℕ, ◌+◌, ◌≤◌, ◌<◌, String, ◌≡◌, refl, ap, ◌∙◌, List, [], ◌∷◌, Option, none, some, Result, ok, err,
  length, arith, All, map,
}
use iicp_client_rust.Base.Words.{ℤ, i64_mod}
use iicp_client_rust.Base.Dict.{get}
use iicp_client_rust.Lifecycle.Types.{LifecycleRecord, LifecycleError, storage}
use iicp_client_rust.Lifecycle.Detail.{Json, content_free_detail}
use iicp_client_rust.Lifecycle.Store
use iicp_client_rust.Lifecycle.Store.{LifecycleStore, Outcome, replay}
use iicp_client_rust.Lifecycle.Store.Invariant.{
  Step, submits, reads, moves, Step-IsValid, new-IsValid,
}
use iicp_client_rust.Lifecycle.Store.Binding.{Step-IsBound}
use iicp_client_rust.Lifecycle.Sqlite
use iicp_client_rust.Lifecycle.Sqlite.{
  Database, Answer, commit, with_db, status_tx, submit_tx, transition_tx, open_db, rows_of,
}
use iicp_client_rust.Lifecycle.Sqlite.Simulation.{Holds, Represents, Holds-later}
use iicp_client_rust.Lifecycle.Sqlite.Calls.{
  Call, submit_call, status_call, transition_call, events_call, Reply, submitted, told, moved,
  listed, unless, refused_or, reply, time_of, act_db, act_store, run_db, run_store,
}
use iicp_client_rust.Lifecycle.Sqlite.Replies.{first_reply, run_store-first}
use iicp_client_rust.Lifecycle.Sqlite.Agreement.{
  blank, Agrees, status-Agrees, submit-Agrees, transition-Agrees,
}

-- One call: the same reply, and the database represents the store again.
abbrev pub Goes : {V : Type 0} → ℕ → Database V × Reply V → LifecycleStore V × Reply V → Type 0
Goes limit o m = (o.1 ≡ m.1) × Represents limit o.0 m.0

module _ {V : Type 0} (limit : ℕ) (db : Database V) (s : LifecycleStore V)
    (v : Represents limit db s) where
  later : Represents (limit + 1) db s
  later = record { holds = Holds-later limit db s v.holds; valid = v.valid; bound = v.bound }

  stepped :
      {db' : Database V} {t : LifecycleStore V}
      → Holds (limit + 1) db' t
      → Step s t
      → Represents (limit + 1) db' t
  stepped h st = record {
    holds = h;
    valid = Step-IsValid st v.valid;
    bound = Step-IsBound st v.bound;
  }

  -- An outcome of the database and one of the store that agree are one step on.
  agreed :
      {A : Type 0} (f : Result LifecycleError A → Reply V) (o : Answer V A) (m : Outcome V A)
      → Agrees (limit + 1) o m
      → Step s m.0
      → Goes (limit + 1) (reply f o) (reply f m)
  agreed f o m (same, holds) st = (ap f same, stepped holds st)

  failed :
      {A : Type 0} (f : Result LifecycleError A → Reply V) (message : String)
      → Goes (limit + 1) (reply f (db, err (storage message))) (reply f (s, err (storage message)))
  failed f message = (refl, later)

  -- The events are read from the record that `status` gives.
  replayed :
      (after : ℤ) (o : Answer V (LifecycleRecord V)) (m : Outcome V (LifecycleRecord V))
      → Agrees (limit + 1) o m
      → Agrees
          (limit + 1)
          (Sqlite.and_then o (λ db' r. (db', replay r after)))
          (Store.and_then m (λ s' r. (s', replay r after)))
        × ((Store.and_then m (λ s' r. (s', replay r after))).0 ≡ m.0)
  replayed after (db', ok r) (t, ok q) (same, holds) =
      let equal : r ≡ q = ground arith in ((ap (λ w. blank (replay w after)) equal, holds), refl)
  replayed after (db', ok r) (t, err e) (same, holds) = absurd (ground arith)
  replayed after (db', err e) (t, ok q) (same, holds) = absurd (ground arith)
  replayed after (db', err e) (t, err e') (same, holds) = ((ground arith, holds), refl)

  module _ (json : Json V) where
    moved_call :
        (fault : Option String) (now : ℕ) (task_id requested : String) (d : Result LifecycleError V)
        → limit < i64_mod
        → now < i64_mod
        → Goes
            (limit + 1)
            (reply moved (elim d [
              | err e ↦ (db, err e)
              | ok stored ↦ with_db fault db (
                  commit db (transition_tx db now task_id (Store.canonical_state requested) stored))
            ]))
            (reply moved (
              refused_or s d
                (λ stored. unless fault s (Store.transition s now task_id requested stored))))
    moved_call fault now task_id requested (err e) fits timed = (refl, later)
    moved_call none now task_id requested (ok stored) fits timed =
        agreed moved _ _ (transition-Agrees limit db s v now task_id requested stored fits timed)
          (moves now task_id requested stored refl)
    moved_call (some message) now task_id requested (ok stored) fits timed = failed moved message

    call-Goes :
        (call : Call V)
        → 1 ≤ limit
        → limit < i64_mod
        → time_of call < i64_mod
        → Goes (limit + 1) (act_db json db call) (act_store json (json.object []) s call)
    unfolding Sqlite.submit Sqlite.status Sqlite.transition Sqlite.events_after Store.events_after
    call-Goes (submit_call none now task_id key digest) room fits timed =
        agreed submitted _ _
          (submit-Agrees limit db s v (json.object []) now task_id key digest room timed)
          (submits (json.object []) now task_id key digest refl)
    call-Goes (submit_call (some message) now task_id key digest) room fits timed =
        failed submitted message
    call-Goes (status_call none now task_id) room fits timed =
        agreed told _ _ (status-Agrees limit db s v now task_id) (reads now task_id refl)
    call-Goes (status_call (some message) now task_id) room fits timed = failed told message
    call-Goes (transition_call fault now task_id requested detail) room fits timed =
        moved_call fault now task_id requested (content_free_detail json detail) fits timed
    call-Goes (events_call none now task_id after) room fits timed =
        let (both, unchanged) =
          replayed after (commit db (status_tx db now task_id)) (Store.status s now task_id)
            (status-Agrees limit db s v now task_id) in
        agreed listed _ _ both (reads now task_id unchanged)
    call-Goes (events_call (some message) now task_id after) room fits timed = failed listed message

module _ {V : Type 0} (json : Json V) where
  run-Represents :
      (limit : ℕ) (db : Database V) (s : LifecycleStore V) (calls : List (Call V))
      → 1 ≤ limit
      → limit + length calls ≤ i64_mod
      → All (λ c. time_of c < i64_mod) calls
      → Represents limit db s
      → run_db json db calls ≡ run_store json (json.object []) s calls
  unfolding run_db run_store
  run-Represents limit db s [] room fits timed v = refl
  run-Represents limit db s (call ∷ calls) room fits (now, timed) v =
      let (same, again) = call-Goes limit db s v json call room (omega arith) now in
      let rest = run-Represents (limit + 1) _ _ calls (omega arith) (omega arith) timed again in
      ap (λ r. r ∷ run_db json (act_db json db call).0 calls) same
      ∙ ap (λ rs. (act_store json (json.object []) s call).1 ∷ rs) rest

  new-Represents :
      (max_events ttl : ℕ)
      → Represents 1 (open_db {V = V} max_events ttl) (Store.new max_events ttl)
  unfolding open_db Store.new rows_of get
  new-Represents max_events ttl = record {
    holds = record {
      same_max = refl;
      same_ttl = refl;
      tasks = refl;
      events = λ k. refl;
      counts = λ k r found. absurd (ground arith);
    };
    valid = new-IsValid max_events ttl;
    bound = λ j k r q hj hk same. absurd (ground arith);
  }

  -- A new database replies to any calls, fewer than 2 ^ 63 and at times below 2 ^ 63, as a new store in
  -- memory of the same limits does to the same calls at the same times, except that the event that
  -- accepts a task has the detail `{}` in place of null, and for the texts of conflicts. A detail is first
  -- reduced to what is stored, or refused; a call that the database fails is one that the store does not get.
  pub run_db-run_store :
      (null : V) (max_events ttl : ℕ) (calls : List (Call V))
      → length calls < i64_mod
      → All (λ c. time_of c < i64_mod) calls
      → run_db json (open_db max_events ttl) calls
        ≡ map (first_reply (json.object [])) (run_store json null (Store.new max_events ttl) calls)
  unfolding Store.new
  run_db-run_store null max_events ttl calls fits timed =
      run-Represents 1 _ _ calls (omega arith) (omega arith) timed (new-Represents max_events ttl)
      ∙ run_store-first (json.object []) json null (Store.new max_events ttl) calls
          (new-IsValid max_events ttl)
