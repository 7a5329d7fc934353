-- ===== src/Dispatch/Admission/Cleanup.antt =====
-- What `cleanup` of src/dispatch_admission_sqlite.rs deletes.
use iicp_client_rust.Base.{
  ℕ, suc, zero, ◌<◌, String, eq_iff, eq_refl, ◌≡◌, refl, Bool, true, not, [], ◌∷◌, Option, none,
  some, ◌⊎◌, inl, inr, arith, All, retain, take, max, ltb, one_of, Bool-cases, String-cases,
  if◌then◌else◌,
}
use iicp_client_rust.Base.Words.{saturating_sub}
use iicp_client_rust.Base.Dict.{get, keys, IsDistinct}
use iicp_client_rust.Dispatch.Admission.{Admission, Table, place, by_expiry, victims, cleanup}

module _ {ℓ} (P : String × Admission → Type ℓ) where
  place-All : (e : String × Admission) (rows : Table) → P e → All P rows → All P (place e rows)
  unfolding place
  place-All e [] p h = (p, tt)
  place-All e (f ∷ rows) p h = ground (arith, place-All e rows p h.1)

  by_expiry-All : (rows : Table) → All P rows → All P (by_expiry rows)
  unfolding by_expiry
  by_expiry-All [] h = tt
  by_expiry-All (e ∷ rows) h = place-All e (by_expiry rows) h.0 (by_expiry-All rows h.1)

  take-All : (n : ℕ) (rows : Table) → All P rows → All P (take n rows)
  take-All zero rows h = tt
  take-All (suc n) [] h = tt
  take-All (suc n) (e ∷ rows) h = (h.0, take-All n rows h.1)

-- A row of the table that has run out at a time.
abbrev pub RanOut : Table → ℕ → String × Admission → Type 0
RanOut table cutoff (k, r) = (get k table ≡ some r) × (r.expires_at < cutoff)

-- In a table with distinct keys every row is what its key finds.
rows-found :
    (table rows : Table)
    → ((k : String) (r : Admission) → get k rows ≡ some r → get k table ≡ some r)
    → IsDistinct rows
    → All (λ e. get e.0 table ≡ some e.1) rows
unfolding get
rows-found table [] same d = tt
rows-found table ((k, r) ∷ rows) same d = (
  same k r (rw (eq_refl k)),
  rows-found table rows (λ j q found. same j q (ground (arith, eq_iff k j))) d.1,
)

expired-RanOut :
    (table rows : Table) (cutoff : ℕ)
    → All (λ e. get e.0 table ≡ some e.1) rows
    → All (RanOut table cutoff) (retain (λ e. ltb e.1.expires_at cutoff) rows)
expired-RanOut table [] cutoff h = tt
expired-RanOut table (e ∷ rows) cutoff h = ground (arith, expired-RanOut table rows cutoff h.1)

victims-RanOut :
    (table : Table) (cutoff limit : ℕ)
    → IsDistinct table
    → All (RanOut table cutoff) (victims table cutoff limit)
unfolding victims
victims-RanOut table cutoff limit d = take-All (RanOut table cutoff) (max limit 1) _ (
    by_expiry-All (RanOut table cutoff) _
      (expired-RanOut table table cutoff (rows-found table table (λ _ _ h. h) d)))

named-RanOut :
    (table gone : Table) (cutoff : ℕ) (k : String)
    → All (RanOut table cutoff) gone
    → one_of (keys gone) k ≡ true
    → (r : Admission) × (get k table ≡ some r) × (r.expires_at < cutoff)
named-RanOut table [] cutoff k h m = absurd (ground arith)
named-RanOut table ((j, r) ∷ gone) cutoff k h m = elim (String-cases k j) [
  | inl e ↦ (r, rw e h.0.0, h.0.1)
  | inr d ↦ named-RanOut table gone cutoff k h.1 (rw d at m)
]

get-retain_keys :
    (p : String → Bool) (k : String) (table : Table)
    → get k (retain (λ e. p e.0) table) ≡ (if p k then get k table else none)
unfolding get
get-retain_keys p k [] = ground arith
get-retain_keys p k ((j, r) ∷ table) = ground (arith, eq_iff j k, get-retain_keys p k table)

retain-IsDistinct :
    (p : String → Bool) (table : Table) → IsDistinct table → IsDistinct (retain (λ e. p e.0) table)
retain-IsDistinct p [] d = tt
retain-IsDistinct p ((k, r) ∷ table) d =
    ground (arith, get-retain_keys p k table, retain-IsDistinct p table d.1)

-- In a table with distinct keys, after a cleanup each row stays, or it was there and had run out
-- before the cutoff; the keys stay distinct.
pub cleanup-RanOut :
    (fault : Option String) (table : Table) (now retention_s limit : ℕ) (k : String)
    → IsDistinct table
    → IsDistinct (cleanup fault table now retention_s limit).0
      × ((get k (cleanup fault table now retention_s limit).0 ≡ get k table)
          ⊎ ((r : Admission) × (get k table ≡ some r)
              × (r.expires_at < saturating_sub now retention_s)))
unfolding cleanup
cleanup-RanOut (some message) table now retention_s limit k d = (d, inl refl)
cleanup-RanOut none table now retention_s limit k d =
    let cutoff = saturating_sub now retention_s in
    let gone = victims table cutoff limit in
    (
      retain-IsDistinct (λ j. not (one_of (keys gone) j)) table d,
      elim (Bool-cases (one_of (keys gone) k)) [
        | inl named ↦
            inr (named-RanOut table gone cutoff k (victims-RanOut table cutoff limit d) named)
        | inr kept ↦ inl (rw (get-retain_keys (λ j. not (one_of (keys gone) j)) k table, kept))
      ],
    )
