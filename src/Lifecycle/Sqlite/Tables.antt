-- ===== src/Lifecycle/Sqlite/Tables.antt =====
-- The tables of src/service_lifecycle_sqlite.rs: what the rows of a task are after each statement.
use iicp_client_rust.Base.{
  ℕ, zero, suc, ◌+◌, ◌-◌, ◌≤◌, String, ◌==◌, eq_iff, ◌≡◌, refl, sym, ap, ◌∙◌, false, not, List, [],
  ◌∷◌, ◌++◌, Option, none, some, ltb, eqb, any, first, last, retain, drop, length, arith,
  if◌then◌else◌, ltb→lt, drop-nil, eq_refl, inl, inr, ◌⊎◌, Bool-cases,
}
use iicp_client_rust.Base.Dict.{get, insert, remove, values, IsDistinct}
use iicp_client_rust.Lifecycle.Types.{
  LifecycleEvent, LifecycleRecord, sequence_or_zero, latest_sequence,
}
use iicp_client_rust.Lifecycle.Sqlite.{
  TaskRow, place, by_sequence, rows_of, forget_events, matches_row,
}

-- The sequences count up from a first one.
abbrev pub Counts : {V : Type 0} → ℕ → List (LifecycleEvent V) → Type 0
Counts n [] = Unit
Counts n (e ∷ es) = (e.sequence ≡ n) × Counts (n + 1) es

module _ {V : Type 0} where
  pub rows_of-append_one :
      (k : String) (es : List (LifecycleEvent V)) (e : LifecycleEvent V)
      → rows_of k (es ++ e ∷ []) ≡ (if e.task_id == k then rows_of k es ++ e ∷ [] else rows_of k es)
  unfolding rows_of
  rows_of-append_one k [] e = refl
  rows_of-append_one k (f ∷ es) e = ground (arith, rows_of-append_one k es e)

  pub rows_of-others :
      (k id : String) (es : List (LifecycleEvent V))
      → rows_of k (retain (λ e. not (e.task_id == id)) es) ≡ (if k == id then [] else rows_of k es)
  unfolding rows_of
  rows_of-others k id [] = ground arith
  rows_of-others k id (e ∷ es) =
      ground (arith, eq_iff e.task_id k, eq_iff k id, eq_iff e.task_id id, rows_of-others k id es)

  pub rows_of-forget_events :
      (k id : String) (cutoff : ℕ) (es : List (LifecycleEvent V))
      → rows_of k (forget_events id cutoff es) ≡ (
          if k == id
          then retain (λ e. not (ltb e.sequence cutoff)) (rows_of k es)
          else rows_of k es)
  unfolding rows_of
  rows_of-forget_events k id cutoff [] = ground arith
  rows_of-forget_events k id cutoff (e ∷ es) = ground (
    arith,
    eq_iff e.task_id k,
    eq_iff k id,
    eq_iff e.task_id id,
    rows_of-forget_events k id cutoff es,
  )

  pub Counts-append_one :
      (n : ℕ) (es : List (LifecycleEvent V)) (e : LifecycleEvent V)
      → Counts n es
      → e.sequence ≡ n + length es
      → Counts n (es ++ e ∷ [])
  Counts-append_one n [] e c h = (omega arith, tt)
  Counts-append_one n (f ∷ es) e c h = (c.0, Counts-append_one (n + 1) es e c.1 (omega arith))

  pub Counts-drop :
      (k n : ℕ) (es : List (LifecycleEvent V)) → Counts n es → Counts (n + k) (drop k es)
  Counts-drop zero n es c = let e : n + 0 ≡ n = omega arith in rw e c
  Counts-drop (suc k) n [] c = tt
  Counts-drop (suc k) n (e ∷ es) c =
      let same : n + suc k ≡ n + 1 + k = omega arith in rw same (Counts-drop k (n + 1) es c.1)

  -- The last of the sequences.
  pub Counts-last :
      (n : ℕ) (es : List (LifecycleEvent V))
      → Counts n es
      → 1 ≤ length es
      → sequence_or_zero (last es) + 1 ≡ n + length es
  Counts-last n [] c h = absurd (omega arith)
  Counts-last n (e ∷ []) c h = omega arith
  Counts-last n (e ∷ f ∷ es) c h = omega (arith, Counts-last (n + 1) (f ∷ es) c.1)

  place-first :
      (n : ℕ) (e : LifecycleEvent V) (es : List (LifecycleEvent V))
      → e.sequence ≤ n
      → Counts n es
      → place e es ≡ e ∷ es
  unfolding place
  place-first n e [] h c = refl
  place-first n e (f ∷ es) h c = ground arith

  -- Rows that count up are in the order of their sequences.
  pub by_sequence-Counts :
      (n : ℕ) (es : List (LifecycleEvent V)) → Counts n es → by_sequence es ≡ es
  unfolding by_sequence
  by_sequence-Counts n [] c = refl
  by_sequence-Counts n (e ∷ es) c =
      ap (place e) (by_sequence-Counts (n + 1) es c.1) ∙ place-first (n + 1) e es (omega arith) c.1

  -- A sequence after all of them is not among them.
  pub any-Counts :
      (n m : ℕ) (es : List (LifecycleEvent V))
      → Counts n es
      → n + length es ≤ m
      → any (λ f. eqb f.sequence m) es ≡ false
  any-Counts n m [] c h = refl
  any-Counts n m (e ∷ es) c h = ground (arith, any-Counts (n + 1) m es c.1)

  -- To keep the sequences from a cutoff on is to drop as many as lie before it.
  pub retain-Counts :
      (n cutoff : ℕ) (es : List (LifecycleEvent V))
      → Counts n es
      → retain (λ e. not (ltb e.sequence cutoff)) es ≡ drop (cutoff - n) es
  retain-Counts n cutoff [] c = sym (drop-nil (cutoff - n))
  retain-Counts n cutoff (e ∷ es) c =
      let rest = retain-Counts (n + 1) cutoff es c.1 in
      elim (Bool-cases (ltb e.sequence cutoff)) [
        | inl before ↦
            let more : cutoff - n ≡ suc (cutoff - (n + 1)) =
              omega (arith, ltb→lt _ _ before, c.0) in
            rw (before, more) rest
        | inr from_here ↦
            let stop : cutoff - n ≡ 0 = ground (arith, c.0) in
            let stop' : cutoff - (n + 1) ≡ 0 = omega arith in
            rw (from_here, stop) (ap (λ xs. e ∷ xs) (rest ∙ ap (λ k. drop k es) stop'))
      ]

-- The row of a record.
abbrev pub row_of : {V : Type 0} → LifecycleRecord V → TaskRow
row_of r = record {
  idempotency_key = r.idempotency_key;
  request_digest = r.request_digest;
  state = r.state;
  latest_sequence = latest_sequence r;
  updated_at_ms = r.updated_at_ms;
}

abbrev pub row_option : {V : Type 0} → Option (LifecycleRecord V) → Option TaskRow
row_option none = none
row_option (some r) = some (row_of r)

abbrev pub rows : {V : Type 0} → List (String × LifecycleRecord V) → List (String × TaskRow)
rows [] = []
rows ((k, r) ∷ m) = (k, row_of r) ∷ rows m

module _ {V : Type 0} where
  pub get-rows :
      (k : String) (m : List (String × LifecycleRecord V)) → get k (rows m) ≡ row_option (get k m)
  unfolding get
  get-rows k [] = refl
  get-rows k ((j, r) ∷ m) = ground (arith, get-rows k m)

  pub insert-rows :
      (k : String) (r : LifecycleRecord V) (m : List (String × LifecycleRecord V))
      → insert k (row_of r) (rows m) ≡ rows (insert k r m)
  unfolding insert
  insert-rows k r [] = refl
  insert-rows k r ((j, q) ∷ m) = ground (arith, insert-rows k r m)

  pub remove-rows :
      (k : String) (m : List (String × LifecycleRecord V)) → remove k (rows m) ≡ rows (remove k m)
  unfolding remove
  remove-rows k [] = refl
  remove-rows k ((j, q) ∷ m) = ground (arith, remove-rows k m)

  pub any_key-rows :
      (key : String) (m : List (String × LifecycleRecord V))
      → any (λ r. r.idempotency_key == key) (values (rows m))
        ≡ any (λ r. r.idempotency_key == key) (values m)
  any_key-rows key [] = refl
  any_key-rows key ((j, q) ∷ m) = ground (arith, any_key-rows key m)

  -- The first row that a submission matches: there is none just when the task and the key are
  -- new, and otherwise it is the row of a record with that task or that key.
  pub first_match :
      (task_id key : String) (m : List (String × LifecycleRecord V))
      → IsDistinct m
      → ((first (retain (matches_row task_id key) (rows m)) ≡ none)
          × (get task_id m ≡ none)
          × (any (λ r. r.idempotency_key == key) (values m) ≡ false))
        ⊎ ((k : String) × (r : LifecycleRecord V) × (first
                (retain (matches_row task_id key) (rows m))
              ≡ some (k, row_of r))
            × (get k m ≡ some r)
            × ((k ≡ task_id) ⊎ (r.idempotency_key ≡ key)))
  unfolding get
  first_match task_id key [] d = inl (refl, refl, refl)
  first_match task_id key ((j, q) ∷ m) d = elim (Bool-cases (j == task_id)) [
    | inl same ↦ inr (j, q, rw same refl, rw (eq_refl j) refl, inl ((eq_iff j task_id).0 same))
    | inr other ↦ elim (Bool-cases (q.idempotency_key == key)) [
      | inl shared ↦ inr (
        j,
        q,
        rw (other, shared) refl,
        rw (eq_refl j) refl,
        inr ((eq_iff q.idempotency_key key).0 shared),
      )
      | inr own ↦ elim (first_match task_id key m d.1) [
        | inl (missing, absent, free) ↦ inl (rw (other, own) missing, rw other absent, rw own free)
        | inr (k, r, found, stored, why) ↦
            inr (k, r, rw (other, own) found, ground (arith, eq_iff j k, d.0), why)
      ]
    ]
  ]
