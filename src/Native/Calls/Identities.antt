-- ===== src/Native/Calls/Identities.antt =====
-- What the registry of src/native_call_identity.rs keeps apart.
use iicp_client_rust.Base.{
  String, eq_iff, eq_refl, ◌≡◌, ◌≢◌, refl, sym, subst, true, false, List, [], ◌∷◌, some, Result, ok,
  err, inl, inr, arith, Bool-cases,
}
use iicp_client_rust.Base.Dict.{get, insert, contains_key, get-insert}
use iicp_client_rust.Native.Calls.{
  IdentityRegistry, Call, lifecycle_profile, NativeCallIdentityError, call_id_reuse,
  task_identity_conflict, non_empty, is_other, is_str, required, identify, accept,
}

identify-ok :
    (g : IdentityRegistry) (call : Call) (task_id call_id key : String)
    → identify g call ≡ ok (task_id, call_id, key)
    → (non_empty (call "task_id") ≡ some task_id)
      × (non_empty (call "call_id") ≡ some call_id)
      × (non_empty (call "idempotency_key") ≡ some key)
      × (contains_key call_id g.calls ≡ false)
      × (is_other (get task_id g.tasks) key ≡ false)
unfolding identify required
identify-ok g call task_id call_id key h = ground arith

-- `accept` refuses and changes nothing, passes a call of no profile by, or writes the identifiers.
accept_cases {ℓ} :
    (P : IdentityRegistry × Result NativeCallIdentityError (Unit {0}) → Type ℓ)
    (g : IdentityRegistry) (call : Call)
    → (is_str lifecycle_profile (call "profile") ≡ false → P (g, ok tt))
    → ((e : NativeCallIdentityError) → identify g call ≡ err e → P (g, err e))
    → ((task_id call_id key : String)
        → identify g call ≡ ok (task_id, call_id, key)
        → P (
          record g { tasks = insert task_id key g.tasks; calls = insert call_id tt g.calls },
          ok tt,
        ))
    → P (accept g call)
unfolding accept
accept_cases P g call other refused taken =
    elim (Bool-cases (is_str lifecycle_profile (call "profile"))) [
      | inl profiled ↦ rw profiled (go (identify g call) refl)
      | inr not_profiled ↦ rw not_profiled (other not_profiled)
    ]
  where
    go :
        (r : Result NativeCallIdentityError (String × String × String))
        → identify g call ≡ r
        → P (elim (identify g call) [
          | err e ↦ (g, err e)
          | ok (task_id, call_id, key) ↦ (
            record g { tasks = insert task_id key g.tasks; calls = insert call_id tt g.calls },
            ok tt,
          )
        ])
    go (err e) h = rw h (refused e h)
    go (ok (task_id, call_id, key)) h = rw h (taken task_id call_id key h)

-- A call identifier that was used, and the key of a task that was named.
pub record IsKnown (g : IdentityRegistry) (task_id call_id key : String) : Type 0 where
  pub used : contains_key call_id g.calls ≡ true
  pub bound : get task_id g.tasks ≡ some key

accept-IsKnown :
    (g : IdentityRegistry) (call : Call) (task_id call_id key : String)
    → IsKnown g task_id call_id key
    → IsKnown (accept g call).0 task_id call_id key
accept-IsKnown g call t i k v =
    accept_cases (λ o. IsKnown o.0 t i k) g call (λ _. v) (λ _ _. v)
      (λ t' i' k' h.
        let free = identify-ok g call t' i' k' h in
        record {
          used = ground (arith, get-insert i' i tt g.calls, v.used);
          bound =
              ground (arith, get-insert t' t k' g.tasks, v.bound, free.4, eq_iff t' t, eq_iff k k');
        })

-- A history of calls on the registry.
unfoldable pub run : IdentityRegistry → List Call → IdentityRegistry
run g [] = g
run g (call ∷ calls) = run (accept g call).0 calls

run-IsKnown :
    (g : IdentityRegistry) (calls : List Call) (task_id call_id key : String)
    → IsKnown g task_id call_id key
    → IsKnown (run g calls) task_id call_id key
unfolding run
run-IsKnown g [] t i k v = v
run-IsKnown g (call ∷ calls) t i k v =
    run-IsKnown (accept g call).0 calls t i k (accept-IsKnown g call t i k v)

-- A call of the profile whose identifiers are these, none empty.
pub record Carries (call : Call) (task_id call_id key : String) : Type 0 where
  pub profiled : is_str lifecycle_profile (call "profile") ≡ true
  pub task_named : non_empty (call "task_id") ≡ some task_id
  pub call_named : non_empty (call "call_id") ≡ some call_id
  pub key_named : non_empty (call "idempotency_key") ≡ some key

accepted-IsKnown :
    (g : IdentityRegistry) (call : Call) (task_id call_id key : String)
    → Carries call task_id call_id key
    → (accept g call).1 ≡ ok tt
    → IsKnown (accept g call).0 task_id call_id key
accepted-IsKnown g call t i k c =
    accept_cases (λ o. o.1 ≡ ok tt → IsKnown o.0 t i k) g call
      (λ none_such _. absurd (ground (arith, c.profiled))) (λ e _ h. absurd (ground arith))
      (λ t' i' k' h _.
        let same = identify-ok g call t' i' k' h in
        record {
          used = ground (arith, c.call_named, same.1, get-insert i' i tt g.calls, eq_refl i);
          bound = ground (
            arith,
            c.task_named,
            c.key_named,
            same.0,
            same.2,
            get-insert t' t k' g.tasks,
            eq_refl t,
          );
        })

-- How a later call clashes with one that was accepted, on the registry as it is then, and the error for it.
pub data Clash (h : IdentityRegistry) (task_id call_id key task_id' call_id' key' : String)
    : NativeCallIdentityError → Type 0 where
  reused : call_id' ≡ call_id → Clash h task_id call_id key task_id' call_id' key' call_id_reuse
  rebound :
      task_id' ≡ task_id
      → key' ≢ key
      → contains_key call_id' h.calls ≡ false
      → Clash h task_id call_id key task_id' call_id' key' task_identity_conflict

refuse :
    (h : IdentityRegistry) (later : Call) (task_id call_id key task_id' call_id' key' : String)
    (e : NativeCallIdentityError)
    → IsKnown h task_id call_id key
    → Carries later task_id' call_id' key'
    → Clash h task_id call_id key task_id' call_id' key' e
    → accept h later ≡ (h, err e)
unfolding accept identify required
refuse h later t i k t' i' k' e v c (reused same) =
    let used : contains_key i' h.calls ≡ true =
      subst (λ j. contains_key j h.calls ≡ true) (sym same) v.used in
    ground (arith, c.profiled, c.task_named, c.call_named, c.key_named, used)
refuse h later t i k t' i' k' e v c (rebound same other unused) =
    let bound : get t' h.tasks ≡ some k = subst (λ j. get j h.tasks ≡ some k) (sym same) v.bound in
    ground (
      arith,
      c.profiled,
      c.task_named,
      c.call_named,
      c.key_named,
      unused,
      bound,
      other,
      eq_iff k k',
    )

-- After a call of the profile was accepted, and any calls since: a call of the profile with its call
-- identifier is refused with call_id_reuse, and a call of its task with another key, whose call identifier
-- is not on record, with task_identity_conflict; neither changes the registry.
pub accept_again :
    (g : IdentityRegistry) (call : Call) (task_id call_id key : String) (since : List Call)
    (later : Call) (task_id' call_id' key' : String) (e : NativeCallIdentityError)
    → Carries call task_id call_id key
    → (accept g call).1 ≡ ok tt
    → Carries later task_id' call_id' key'
    → Clash (run (accept g call).0 since) task_id call_id key task_id' call_id' key' e
    → accept (run (accept g call).0 since) later ≡ (run (accept g call).0 since, err e)
accept_again g call t i k since later t' i' k' e c taken c' clash =
    let known = run-IsKnown (accept g call).0 since t i k (accepted-IsKnown g call t i k c taken) in
    refuse (run (accept g call).0 since) later t i k t' i' k' e known c' clash
