-- ===== src/Dispatch/Admission/Replay.antt =====
-- A ticket is admitted once: src/dispatch_admission.rs with src/dispatch_admission_sqlite.rs.
use iicp_client_rust.Base.{
  ℕ, ◌+◌, ◌<◌, ◌≤◌, String, eq_iff, ◌≡◌, ◌≢◌, List, [], ◌∷◌, Option, none, some, ok, ◌⊎◌, inl, inr,
  arith, Option-cases,
}
use iicp_client_rust.Base.Dict.{get, IsDistinct, insert-IsDistinct, get-insert, get-insert_self}
use iicp_client_rust.Dispatch.Admission.{
  Claim, Admission, Table, refusal, accept, admitted, consume_row, consume, transition_row,
  transition, cleanup,
}
use iicp_client_rust.Dispatch.Admission.Cleanup.{cleanup-RanOut}

-- A call on the store, with the failure of the database, if there is one.
pub data Call : Type 0 where
  consumes : Option String → Claim → String → String → ℕ → ℕ → Call
  transitions : Option String → String → String → ℕ → Call
  cleans : Option String → ℕ → ℕ → ℕ → Call

module _ (digest : String → String) where
  abbrev pub act : Table → Call → Table
  act table (consumes fault c provider intent now skew) =
      (consume digest fault table c provider intent now skew).0
  act table (transitions fault jti state now) = (transition fault table jti state now).0
  act table (cleans fault now retention_s limit) = (cleanup fault table now retention_s limit).0

  unfoldable pub run : Table → List Call → Table
  run table [] = table
  run table (call ∷ calls) = run (act table call) calls

abbrev pub time_of : Call → ℕ
time_of (consumes fault c provider intent now skew) = now
time_of (transitions fault jti state now) = now
time_of (cleans fault now retention_s limit) = now

-- A cleanup retains rows for at least the clock skew that tickets are granted.
abbrev pub Retains : ℕ → Call → Type 0
Retains skew (consumes fault c provider intent now s) = Unit
Retains skew (transitions fault jti state now) = Unit
Retains skew (cleans fault now retention_s limit) = skew ≤ retention_s

-- The clock does not go back.
abbrev pub InOrder : ℕ → ℕ → List Call → Type 0
InOrder skew now [] = Unit
InOrder skew now (call ∷ calls) =
    (now ≤ time_of call) × Retains skew call × InOrder skew (time_of call) calls

abbrev pub end_of : ℕ → List Call → ℕ
end_of now [] = now
end_of now (call ∷ calls) = end_of (time_of call) calls

abbrev pub expiry_of : Option Admission → Option ℕ
expiry_of none = none
expiry_of (some r) = some r.expires_at

-- The ticket is on record, or it ran out more than the skew ago.
pub record IsSpent (c : Claim) (skew now : ℕ) (table : Table) : Type 0 where
  pub distinct : IsDistinct table
  pub spent : (expiry_of (get c.jti table) ≡ some c.expires_at) ⊎ (c.expires_at + skew ≤ now)

IsSpent-later :
    (c : Claim) (skew now later : ℕ) (table : Table)
    → now ≤ later
    → IsSpent c skew now table
    → IsSpent c skew later table
IsSpent-later c skew now later table h v = record {
  distinct = v.distinct;
  spent = elim v.spent [ inl onrec ↦ inl onrec | inr old ↦ inr (omega arith) ];
}

module _ (digest : String → String) where
  consumed-IsSpent :
      (fault : Option String) (table : Table) (d : Claim) (provider intent : String) (t s : ℕ)
      (c : Claim) (skew now : ℕ)
      → IsSpent c skew now table
      → IsSpent c skew now (consume digest fault table d provider intent t s).0
  unfolding consume consume_row
  consumed-IsSpent fault table d provider intent t s c skew now v = ground (
    arith,
    insert-IsDistinct d.jti (admitted digest d t) table v.distinct,
    get-insert d.jti c.jti (admitted digest d t) table,
    eq_iff d.jti c.jti,
  )

  moved-IsSpent :
      (fault : Option String) (table : Table) (jti state : String) (t : ℕ) (c : Claim)
      (skew now : ℕ)
      → IsSpent c skew now table
      → IsSpent c skew now (transition fault table jti state t).0
  unfolding transition transition_row
  moved-IsSpent fault table jti state t c skew now v = elim (Option-cases (get jti table)) [
    | inl e ↦ ground arith
    | inr (r, e) ↦
        let r' : Admission = record r { state = state; updated_at = t } in
        ground (
          arith,
          insert-IsDistinct jti r' table v.distinct,
          get-insert jti c.jti r' table,
          eq_iff jti c.jti,
        )
  ]

  cleaned-IsSpent :
      (fault : Option String) (table : Table) (t retention_s limit : ℕ) (c : Claim) (skew : ℕ)
      → skew ≤ retention_s
      → IsSpent c skew t table
      → IsSpent c skew t (cleanup fault table t retention_s limit).0
  cleaned-IsSpent fault table t retention_s limit c skew h v =
      let (distinct, fate) = cleanup-RanOut fault table t retention_s limit c.jti v.distinct in
      record { distinct = distinct; spent = ground arith }

  act-IsSpent :
      (table : Table) (call : Call) (c : Claim) (skew now : ℕ)
      → now ≤ time_of call
      → Retains skew call
      → IsSpent c skew now table
      → IsSpent c skew (time_of call) (act digest table call)
  act-IsSpent table (consumes f d provider intent t s) c skew now h keep v =
      consumed-IsSpent f table d provider intent t s c skew t (IsSpent-later c skew now t table h v)
  act-IsSpent table (transitions f jti state t) c skew now h keep v =
      moved-IsSpent f table jti state t c skew t (IsSpent-later c skew now t table h v)
  act-IsSpent table (cleans f t retention_s limit) c skew now h keep v =
      cleaned-IsSpent f table t retention_s limit c skew keep (IsSpent-later c skew now t table h v)

  run-IsSpent :
      (table : Table) (calls : List Call) (c : Claim) (skew now : ℕ)
      → InOrder skew now calls
      → IsSpent c skew now table
      → IsSpent c skew (end_of now calls) (run digest table calls)
  unfolding run
  run-IsSpent table [] c skew now h v = v
  run-IsSpent table (call ∷ calls) c skew now h v =
      run-IsSpent (act digest table call) calls c skew (time_of call) h.2
        (act-IsSpent table call c skew now h.0 h.1 v)

  accepted-IsSpent :
      (fault : Option String) (table : Table) (c : Claim) (provider intent : String) (now skew : ℕ)
      → IsDistinct table
      → (consume digest fault table c provider intent now skew).1 ≡ ok accept
      → IsSpent c skew now (consume digest fault table c provider intent now skew).0
  unfolding consume consume_row
  accepted-IsSpent fault table c provider intent now skew d h = ground (
    arith,
    insert-IsDistinct c.jti (admitted digest c now) table d,
    get-insert_self c.jti (admitted digest c now) table,
  )

  -- A claim that passes the checks has not run out by more than the skew.
  refusal-none :
      (c : Claim) (provider intent : String) (now skew : ℕ)
      → refusal c provider intent now skew ≡ none
      → now < c.expires_at + skew
  unfolding refusal
  refusal-none c provider intent now skew h = ground arith

  refused_once_spent :
      (table : Table) (c : Claim) (fault : Option String) (provider intent : String) (now skew : ℕ)
      → IsSpent c skew now table
      → (consume digest fault table c provider intent now skew).1 ≢ ok accept
  unfolding consume consume_row
  refused_once_spent table c fault provider intent now skew v h =
      ground (arith, refusal-none c provider intent now skew)

  -- A ticket that was accepted once is never accepted again, whatever is consumed, moved and cleaned up
  -- in between and whoever expects it, as long as the clock does not go back and no cleanup retains
  -- rows for less than the clock skew.
  pub consume_once :
      (fault fault' : Option String) (table : Table) (c : Claim)
      (provider intent provider' intent' : String) (now skew later : ℕ) (calls : List Call)
      → IsDistinct table
      → (consume digest fault table c provider intent now skew).1 ≡ ok accept
      → InOrder skew now calls
      → end_of now calls ≤ later
      → (consume digest fault'
          (run digest (consume digest fault table c provider intent now skew).0 calls)
          c
          provider'
          intent'
          later
          skew).1
        ≢ ok accept
  consume_once fault fault' table c provider intent provider' intent' now skew later calls d h order
        le =
      refused_once_spent _ c fault' provider' intent' later skew (
        IsSpent-later c skew (end_of now calls) later _ le (
          run-IsSpent _ calls c skew now order
            (accepted-IsSpent fault table c provider intent now skew d h)))
