-- ===== src/Relay/Sessions/Rates.antt =====
-- How many binds a source is allowed in a time: `allow_bind` of src/relay_session.rs.
use iicp_client_rust.Base.{
  ℕ, ◌+◌, ◌-◌, ◌*◌, ◌≤◌, ◌<◌, String, ◌==◌, eq_iff, eq_refl, ◌≡◌, ◌≢◌, refl, sym, Bool, false, not,
  ◌&&◌, inl, inr, List, [], ◌∷◌, Option, none, some, All, arith, ltb, leb, eqb, length,
  if◌then◌else◌, Bool-cases, String-cases, subst,
}
use iicp_client_rust.Base.Dict.{get, insert, IsDistinct, insert-IsDistinct, get-insert}
use iicp_client_rust.Relay.Sessions.{
  Registry, allow_bind, counted, entry_or, is_expired, unexpired, pruned, relay_bind_rate_window,
  u32_mod,
}

pub record Attempt : Type 0 where
  pub source : String
  pub rebind : Bool
  pub now : ℕ

-- The number of the attempts of a source, other than rebinds, that are allowed.
unfoldable pub allowed : Registry → String → List Attempt → ℕ
allowed r source [] = 0
allowed r source (a ∷ attempts) =
    let (after, allows) = allow_bind r a.source a.rebind a.now in
    (if a.source == source && not a.rebind && allows then 1 else 0) + allowed after source attempts

abbrev pub count_of : Option (ℕ × ℕ) → ℕ
count_of none = 0
count_of (some (start, count)) = count

abbrev unless_expired : ℕ → Option (ℕ × ℕ) → Option (ℕ × ℕ)
unless_expired now none = none
unless_expired now (some entry) = if is_expired now entry.0 then none else some entry

get-unexpired :
    (now : ℕ) (source : String) (buckets : List (String × (ℕ × ℕ)))
    → IsDistinct buckets
    → get source (unexpired now buckets) ≡ unless_expired now (get source buckets)
unfolding unexpired get
get-unexpired now source [] d = refl
get-unexpired now source ((other, entry) ∷ buckets) d =
    ground (arith, eq_iff other source, get-unexpired now source buckets d.1)

unexpired-IsDistinct :
    (now : ℕ) (buckets : List (String × (ℕ × ℕ)))
    → IsDistinct buckets
    → IsDistinct (unexpired now buckets)
unfolding unexpired get
unexpired-IsDistinct now [] d = tt
unexpired-IsDistinct now ((other, entry) ∷ buckets) d =
    ground (arith, get-unexpired now other buckets d.1, unexpired-IsDistinct now buckets d.1)

-- How many more attempts may be allowed before a window that begins at `t` is over.
abbrev credit : ℕ → ℕ → Option (ℕ × ℕ) → ℕ
credit limit t none = limit
credit limit t (some (start, count)) = if leb t start then limit - count else limit - count + limit

credit_le : (limit t : ℕ) (o : Option (ℕ × ℕ)) → credit limit t o ≤ 2 * limit
credit_le limit t none = omega arith
credit_le limit t (some (start, count)) = ground arith

-- One attempt of the source itself.
counted-credit :
    (limit t now : ℕ) (o : Option (ℕ × ℕ))
    → t ≤ now
    → now < t + relay_bind_rate_window
    → count_of o + 1 < u32_mod
    → 1 ≤ limit
    → (if leb (counted now (entry_or now o)).1 limit then 1 else 0)
        + credit limit t (some (counted now (entry_or now o)))
      ≤ credit limit t o
counted-credit limit t now none from before fits on = ground arith
counted-credit limit t now (some (start, count)) from before fits on = ground arith

count_of-counted :
    (now : ℕ) (o : Option (ℕ × ℕ))
    → count_of o + 1 < u32_mod
    → (counted now (entry_or now o)).1 ≤ count_of o + 1
count_of-counted now none fits = ground arith
count_of-counted now (some (start, count)) fits = ground arith

-- What an entry is worth once it may have been pruned.
unless_expired-credit :
    (limit t now : ℕ) (o : Option (ℕ × ℕ))
    → t ≤ now
    → now < t + relay_bind_rate_window
    → (credit limit t (unless_expired now o) ≤ credit limit t o)
      × (count_of (unless_expired now o) ≤ count_of o)
unless_expired-credit limit t now none from before = (omega arith, omega arith)
unless_expired-credit limit t now (some (start, count)) from before = (ground arith, ground arith)

pruned-credit :
    (limit t now : ℕ) (source : String) (buckets : List (String × (ℕ × ℕ)))
    → IsDistinct buckets
    → t ≤ now
    → now < t + relay_bind_rate_window
    → (credit limit t (get source (pruned now buckets)) ≤ credit limit t (get source buckets))
      × (count_of (get source (pruned now buckets)) ≤ count_of (get source buckets))
pruned-credit limit t now source buckets d from before =
    elim (Bool-cases (ltb 4096 (length buckets))) [
      | inl many ↦
          rw (many, get-unexpired now source buckets d)
            (unless_expired-credit limit t now (get source buckets) from before)
      | inr few ↦ rw few (omega arith, omega arith)
    ]

pruned-IsDistinct :
    (now : ℕ) (buckets : List (String × (ℕ × ℕ)))
    → IsDistinct buckets
    → IsDistinct (pruned now buckets)
pruned-IsDistinct now buckets d = elim (Bool-cases (ltb 4096 (length buckets))) [
  | inl many ↦ rw many (unexpired-IsDistinct now buckets d)
  | inr few ↦ rw few d
]

module _ (limit t : ℕ) where
  -- What the entry of a source may be worth, and the attempts that may still come.
  abbrev worth : Registry → String → ℕ
  worth r source = credit limit t (get source r.bind_rate_buckets)

  abbrev counts : Registry → String → ℕ
  counts r source = count_of (get source r.bind_rate_buckets)

  abbrev given : Attempt → String → Bool → ℕ
  given a source allows = if a.source == source && not a.rebind && allows then 1 else 0

  -- One attempt of any source costs what it is allowed.
  abbrev Spends : Registry → String → Attempt → Registry × Bool → Type 0
  Spends r source a (after, allows) =
      (given a source allows + worth after source ≤ worth r source)
      × (counts after source ≤ counts r source + 1)
      × IsDistinct after.bind_rate_buckets
      × (after.bind_rate_limit ≡ limit)

  abbrev entry_of : Registry → Attempt → ℕ × ℕ
  entry_of r a = counted a.now (entry_or a.now (get a.source r.bind_rate_buckets))

  abbrev written : Registry → Attempt → List (String × (ℕ × ℕ))
  written r a = insert a.source (entry_of r a) r.bind_rate_buckets

  abbrev IsPaid : Registry → Attempt → String → Type 0
  IsPaid r a source =
      (given a source (leb (entry_of r a).1 limit) + credit limit t (get source (written r a))
        ≤ worth r source)
      × (count_of (get source (written r a)) ≤ counts r source + 1)

  -- The attempt of the source itself, and one of another source, before what is expired is pruned.
  own-IsPaid :
      (r : Registry) (a : Attempt)
      → 1 ≤ limit
      → a.rebind ≡ false
      → t ≤ a.now
      → a.now < t + relay_bind_rate_window
      → counts r a.source + 1 < u32_mod
      → IsPaid r a a.source
  own-IsPaid r a on first from before fits =
      rw (get-insert a.source a.source (entry_of r a) r.bind_rate_buckets, eq_refl a.source, first)
        (
          counted-credit limit t a.now (get a.source r.bind_rate_buckets) from before fits on,
          count_of-counted a.now (get a.source r.bind_rate_buckets) fits,
        )

  other-IsPaid :
      (r : Registry) (source : String) (a : Attempt)
      → (a.source == source) ≡ false
      → IsPaid r a source
  other-IsPaid r source a other =
      rw (get-insert a.source source (entry_of r a) r.bind_rate_buckets, other)
        (omega arith, omega arith)

  written-IsPaid :
      (r : Registry) (source : String) (a : Attempt)
      → 1 ≤ limit
      → a.rebind ≡ false
      → t ≤ a.now
      → a.now < t + relay_bind_rate_window
      → counts r source + 1 < u32_mod
      → IsPaid r a source
  written-IsPaid r source a on first from before fits = elim (String-cases a.source source) [
    | inl own ↦
        subst (IsPaid r a) own (
          own-IsPaid r a on first from before
            (subst (λ s. counts r s + 1 < u32_mod) (sym own) fits))
    | inr other ↦ other-IsPaid r source a other
  ]

  allow_bind-Spends :
      (r : Registry) (source : String) (a : Attempt)
      → r.bind_rate_limit ≡ limit
      → 1 ≤ limit
      → IsDistinct r.bind_rate_buckets
      → t ≤ a.now
      → a.now < t + relay_bind_rate_window
      → counts r source + 1 < u32_mod
      → Spends r source a (allow_bind r a.source a.rebind a.now)
  unfolding allow_bind
  allow_bind-Spends r source a same on d from before fits = elim (Bool-cases a.rebind) [
    | inl again ↦ rw again (ground arith, omega arith, d, same)
    | inr first ↦
        let off : eqb r.bind_rate_limit 0 ≡ false = ground arith in
        let (costs, grows) = written-IsPaid r source a on first from before fits in
        let distinct = insert-IsDistinct a.source (entry_of r a) r.bind_rate_buckets d in
        let (kept, few) = pruned-credit limit t a.now source (written r a) distinct from before in
        rw (first, off, same)
          (
            omega (arith, rw first at costs),
            omega arith,
            pruned-IsDistinct a.now (written r a) distinct,
            refl,
          )
  ]

-- An attempt in the window of time that begins at `t`.
abbrev pub IsIn : ℕ → Attempt → Type 0
IsIn t a = (t ≤ a.now) × (a.now < t + relay_bind_rate_window)

allowed-worth :
    (limit t : ℕ) (r : Registry) (source : String) (attempts : List Attempt)
    → r.bind_rate_limit ≡ limit
    → 1 ≤ limit
    → IsDistinct r.bind_rate_buckets
    → All (IsIn t) attempts
    → counts limit t r source + length attempts < u32_mod
    → allowed r source attempts ≤ worth limit t r source
unfolding allowed
allowed-worth limit t r source [] same on d within fits = omega arith
allowed-worth limit t r source (a ∷ attempts) same on d ((from, before), within) fits =
    let (costs, grows, distinct, still) =
      allow_bind-Spends limit t r source a same on d from before (omega arith) in
    let rest =
      allowed-worth limit t (allow_bind r a.source a.rebind a.now).0 source attempts still on
        distinct within (omega arith) in
    omega arith

-- With a limit other than 0, and fewer than 2 ^ 32 attempts, a source is allowed at most twice the limit of
-- binds that are no rebinds in any 60 seconds, whatever the registry and the attempts of other sources are.
pub allowed-limit_le :
    (t : ℕ) (r : Registry) (source : String) (attempts : List Attempt)
    → r.bind_rate_limit ≢ 0
    → IsDistinct r.bind_rate_buckets
    → All (IsIn t) attempts
    → count_of (get source r.bind_rate_buckets) + length attempts < u32_mod
    → allowed r source attempts ≤ 2 * r.bind_rate_limit
allowed-limit_le t r source attempts on d within fits =
    let spends =
      allowed-worth r.bind_rate_limit t r source attempts refl (omega arith) d within fits in
    let most = credit_le r.bind_rate_limit t (get source r.bind_rate_buckets) in omega arith
