-- ===== src/Lifecycle/Sqlite/Details.antt =====
-- The detail of a task's first event, `null` in src/service_lifecycle.rs and `{}` in
-- src/service_lifecycle_sqlite.rs: nothing else in the store in memory depends on it.
use iicp_client_rust.Base.{
  ℕ, ◌-◌, String, ◌==◌, eq_iff, ◌≡◌, refl, sym, ap, ◌∙◌, Bool, true, false, List, [], ◌∷◌, ◌++◌,
  Option, none, some, Result, ok, err, arith, ltb, any, first, last, length, drop, retain,
  Bool-cases, inl, inr, if◌then◌else◌,
}
use iicp_client_rust.Base.Words.{ℤ, gtb, as_i64}
use iicp_client_rust.Base.Dict.{get, insert, remove, values}
use iicp_client_rust.Lifecycle.Types.{
  LifecycleEvent, LifecycleRecord, LifecycleError, sequence_or_zero,
}
use iicp_client_rust.Lifecycle.States.{legal_transition, is_known, terminal}
use iicp_client_rust.Lifecycle.Store.{LifecycleStore, Outcome, push_bounded}

-- The event that accepts a task, with this detail.
abbrev pub with_first : {V : Type 0} → V → LifecycleEvent V → LifecycleEvent V
with_first first_detail e = if e.state == "accepted" then record e { detail = first_detail } else e

abbrev pub first_events : {V : Type 0} → V → List (LifecycleEvent V) → List (LifecycleEvent V)
first_events d [] = []
first_events d (e ∷ es) = with_first d e ∷ first_events d es

abbrev pub first_record : {V : Type 0} → V → LifecycleRecord V → LifecycleRecord V
first_record d r = record r { events = first_events d r.events }

abbrev pub first_records :
    {V : Type 0} → V → List (String × LifecycleRecord V) → List (String × LifecycleRecord V)
first_records d [] = []
first_records d ((k, r) ∷ m) = (k, first_record d r) ∷ first_records d m

abbrev pub first_store : {V : Type 0} → V → LifecycleStore V → LifecycleStore V
first_store d s = record s { records = first_records d s.records }

abbrev pub map_ok : {A B : Type 0} → (A → B) → Result LifecycleError A → Result LifecycleError B
map_ok f (ok a) = ok (f a)
map_ok f (err e) = err e

abbrev pub first_outcome : {V A : Type 0} → V → (A → A) → Outcome V A → Outcome V A
first_outcome d f (s, result) = (first_store d s, map_ok f result)

abbrev pub first_created : {V : Type 0} → V → LifecycleRecord V × Bool → LifecycleRecord V × Bool
first_created d (r, created) = (first_record d r, created)

abbrev pub first_option : {V : Type 0} → V → Option (LifecycleRecord V) → Option (LifecycleRecord V)
first_option d none = none
first_option d (some r) = some (first_record d r)

module _ {V : Type 0} (d : V) where
  pub get-first :
      (k : String) (m : List (String × LifecycleRecord V))
      → get k (first_records d m) ≡ first_option d (get k m)
  unfolding get
  get-first k [] = refl
  get-first k ((j, r) ∷ m) = ground (arith, get-first k m)

  pub insert-first :
      (k : String) (r : LifecycleRecord V) (m : List (String × LifecycleRecord V))
      → insert k (first_record d r) (first_records d m) ≡ first_records d (insert k r m)
  unfolding insert
  insert-first k r [] = refl
  insert-first k r ((j, q) ∷ m) = ground (arith, insert-first k r m)

  pub remove-first :
      (k : String) (m : List (String × LifecycleRecord V))
      → remove k (first_records d m) ≡ first_records d (remove k m)
  unfolding remove
  remove-first k [] = refl
  remove-first k ((j, q) ∷ m) = ground (arith, remove-first k m)

  pub any_key-first :
      (key : String) (m : List (String × LifecycleRecord V))
      → any (λ r. r.idempotency_key == key) (values (first_records d m))
        ≡ any (λ r. r.idempotency_key == key) (values m)
  any_key-first key [] = refl
  any_key-first key ((j, q) ∷ m) = ground (arith, any_key-first key m)

  sequence-first : (e : LifecycleEvent V) → (with_first d e).sequence ≡ e.sequence
  sequence-first e = ground arith

  pub first_sequence-first :
      (es : List (LifecycleEvent V))
      → sequence_or_zero (first (first_events d es)) ≡ sequence_or_zero (first es)
  first_sequence-first [] = refl
  first_sequence-first (e ∷ es) = sequence-first e

  pub last_sequence-first :
      (es : List (LifecycleEvent V))
      → sequence_or_zero (last (first_events d es)) ≡ sequence_or_zero (last es)
  last_sequence-first [] = refl
  last_sequence-first (e ∷ []) = sequence-first e
  last_sequence-first (e ∷ f ∷ es) = last_sequence-first (f ∷ es)

  length-first : (es : List (LifecycleEvent V)) → length (first_events d es) ≡ length es
  length-first [] = refl
  length-first (e ∷ es) = omega (arith, length-first es)

  append-first :
      (es : List (LifecycleEvent V)) (e : LifecycleEvent V)
      → first_events d (es ++ e ∷ []) ≡ first_events d es ++ with_first d e ∷ []
  append-first [] e = refl
  append-first (f ∷ es) e = ap (λ rest. with_first d f ∷ rest) (append-first es e)

  drop-first :
      (n : ℕ) (es : List (LifecycleEvent V))
      → drop n (first_events d es) ≡ first_events d (drop n es)
  drop-first ℕ.zero es = refl
  drop-first (ℕ.suc n) [] = refl
  drop-first (ℕ.suc n) (e ∷ es) = drop-first n es

  pub push_bounded-first :
      (m : ℕ) (es : List (LifecycleEvent V)) (e : LifecycleEvent V)
      → push_bounded m (first_events d es) (with_first d e) ≡ first_events d (push_bounded m es e)
  unfolding push_bounded
  push_bounded-first m es e =
      let whole = append-first es e in
      let size : length (first_events d es ++ with_first d e ∷ []) ≡ length (es ++ e ∷ []) =
        ap length (sym whole) ∙ length-first (es ++ e ∷ []) in
      elim (Bool-cases (ltb m (length (es ++ e ∷ [])))) [
        | inl over ↦
            rw (size, over)
              (ap (drop (length (es ++ e ∷ []) - m)) (sym whole)
                ∙ drop-first (length (es ++ e ∷ []) - m) (es ++ e ∷ []))
        | inr fits ↦ rw (size, fits) (sym whole)
      ]

  pub retain-first :
      (after : ℤ) (es : List (LifecycleEvent V))
      → retain (λ e. gtb (as_i64 e.sequence) after) (first_events d es)
        ≡ first_events d (retain (λ e. gtb (as_i64 e.sequence) after) es)
  retain-first after [] = refl
  retain-first after (e ∷ es) = elim (Bool-cases (gtb (as_i64 e.sequence) after)) [
    | inl kept ↦
        rw (sequence-first e, kept) (ap (λ rest. with_first d e ∷ rest) (retain-first after es))
    | inr gone ↦ rw (sequence-first e, gone) (retain-first after es)
  ]

-- Only a submitted task is accepted, and no task of the store is only submitted.
legal_transition-accepted :
    (from : String) → legal_transition from "accepted" ≡ true → from ≡ "submitted"
unfolding legal_transition
legal_transition-accepted from h = ground (arith, eq_iff from "submitted")

pub accepted_unreached :
    (from to : String)
    → is_known from ≡ true
    → legal_transition from to ≡ true
    → (to == "accepted") ≡ false
unfolding is_known terminal
accepted_unreached from to known edge = elim (Bool-cases (to == "accepted")) [
  | inl accepted ↦
      let edge' = rw ((eq_iff to "accepted").0 accepted) at edge in
      let known' = rw (legal_transition-accepted from edge') at known in absurd (ground arith)
  | inr other ↦ other
]
