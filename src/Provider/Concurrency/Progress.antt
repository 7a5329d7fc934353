-- ===== src/Provider/Concurrency/Progress.antt =====
-- The loop of `acquire` in src/concurrency.rs ends: a thread tries again only when the count has changed.
use iicp_client_rust.Base.{
  ℕ, zero, suc, ◌+◌, ◌<◌, ◌≡◌, refl, ap, ◌∙◌, Bool, true, false, List, [], ◌∷◌, Option, none, some,
  arith, ◌||◌, leb, eqb, ◌⊎◌, inl, inr, Bool-cases, if◌then◌else◌,
}
use iicp_client_rust.Provider.Concurrency.{
  Phase, loaded, holding, refused, turn, System, turn_at, step,
}

abbrev pub phase_at : ℕ → List Phase → Option Phase
phase_at i [] = none
phase_at zero (p ∷ ps) = some p
phase_at (suc i) (p ∷ ps) = phase_at i ps

-- The thread has a slot or was sent away.
abbrev pub has_left : Option Phase → Bool
has_left (some holding) = true
has_left (some refused) = true
has_left _ = false

-- At the start, or after some turn, the thread has left its loop.
unfoldable pub leaves : ℕ → System → List ℕ → Bool
leaves i s [] = has_left (phase_at i s.threads)
leaves i s (j ∷ schedule) =
    let later = leaves i (step s j) schedule in
    if has_left (phase_at i s.threads) then true else later

-- How many turns of a schedule are a thread's, and in how many another thread changes the count.
unfoldable pub turns_of : ℕ → List ℕ → ℕ
turns_of i [] = 0
turns_of i (j ∷ schedule) = (if eqb i j then 1 else 0) + turns_of i schedule

unfoldable pub changes : ℕ → System → List ℕ → ℕ
changes i s [] = 0
changes i s (j ∷ schedule) =
    (if eqb i j || eqb (step s j).active s.active then 0 else 1) + changes i (step s j) schedule

turn_at_self :
    (max_concurrent active i : ℕ) (ps : List Phase) {p : Phase}
    → phase_at i ps ≡ some p
    → ((turn_at max_concurrent active i ps).0 ≡ (turn max_concurrent active p).0)
      × (phase_at i (turn_at max_concurrent active i ps).1 ≡ some (turn max_concurrent active p).1)
unfolding turn_at
turn_at_self m active i [] h = cc
turn_at_self m active zero (p ∷ ps) h = (ground arith, ground arith)
turn_at_self m active (suc i) (p ∷ ps) h = turn_at_self m active i ps h

turn_at_other :
    (max_concurrent active i j : ℕ) (ps : List Phase)
    → eqb i j ≡ false
    → phase_at i (turn_at max_concurrent active j ps).1 ≡ phase_at i ps
unfolding turn_at
turn_at_other m active i j [] h = refl
turn_at_other m active zero zero (p ∷ ps) h = absurd (ground arith)
turn_at_other m active zero (suc j) (p ∷ ps) h = refl
turn_at_other m active (suc i) zero (p ∷ ps) h = refl
turn_at_other m active (suc i) (suc j) (p ∷ ps) h = turn_at_other m active i j ps (ground arith)

abbrev stale : ℕ → ℕ → ℕ
stale cur active = if eqb cur active then 0 else 1

-- A turn of the loop leaves it, or meets a value that it had not read.
turn_again :
    (max_concurrent active cur : ℕ)
    → (has_left (some (turn max_concurrent active (loaded cur)).1) ≡ true)
      ⊎ ((turn max_concurrent active (loaded cur) ≡ (active, loaded active))
          × (stale cur active ≡ 1))
unfolding turn
turn_again m active cur = elim (Bool-cases (leb m cur)) [
  | inl full ↦ inl (rw full refl)
  | inr room ↦ elim (Bool-cases (eqb active cur)) [
    | inl met ↦ inl (rw (room, met) refl)
    | inr moved ↦ inr (rw (room, moved) refl, ground arith)
  ]
]

leaves_now :
    (i : ℕ) (s : System) (schedule : List ℕ)
    → has_left (phase_at i s.threads) ≡ true
    → leaves i s schedule ≡ true
unfolding leaves
leaves_now i s [] h = h
leaves_now i s (j ∷ schedule) h = rw h refl

-- After one turn the same bound holds for the rest, with the value that the thread has then.
leaves_later :
    (i j : ℕ) (s : System) (schedule : List ℕ) (cur : ℕ)
    → phase_at i s.threads ≡ some (loaded cur)
    → leaves i (step s j) schedule ≡ true
    → leaves i s (j ∷ schedule) ≡ true
unfolding leaves
leaves_later i j s schedule cur h l = rw (h, l) refl

own_turn :
    (i j : ℕ) (s : System) (cur : ℕ)
    → phase_at i s.threads ≡ some (loaded cur)
    → eqb i j ≡ true
    → ((step s j).active ≡ (turn s.max_concurrent s.active (loaded cur)).0)
      × (phase_at i (step s j).threads ≡ some (turn s.max_concurrent s.active (loaded cur)).1)
unfolding step
own_turn i j s cur h same =
    let e : j ≡ i = ground arith in rw e (turn_at_self s.max_concurrent s.active i s.threads h)

leaves-stale :
    (i : ℕ) (s : System) (schedule : List ℕ) (cur : ℕ)
    → phase_at i s.threads ≡ some (loaded cur)
    → changes i s schedule + stale cur s.active < turns_of i schedule
    → leaves i s schedule ≡ true
unfolding turns_of changes step
leaves-stale i s [] cur h l = absurd (omega arith)
leaves-stale i s (j ∷ schedule) cur h l =
    leaves_later i j s schedule cur h (elim (Bool-cases (eqb i j)) [
      | inr other ↦ leaves-stale i (step s j) schedule cur (other_phase other) (ground arith)
      | inl same ↦ elim (turn_again s.max_concurrent s.active cur) [
        | inl left ↦ leaves_now i (step s j) schedule (rw ((own_turn i j s cur h same).1) left)
        | inr (again, missed) ↦
            let (kept, phase) = own_turn i j s cur h same in
            let kept' : (step s j).active ≡ s.active = kept ∙ ap (λ (r : ℕ × Phase). r.0) again in
            leaves-stale i (step s j) schedule s.active
              (phase ∙ ap (λ (r : ℕ × Phase). some r.1) again) (ground arith)
      ]
    ])
  where
    other_phase : eqb i j ≡ false → phase_at i (step s j).threads ≡ some (loaded cur)
    other_phase other = turn_at_other s.max_concurrent s.active i j s.threads other ∙ h

-- In any schedule, a thread in the loop of acquire that gets more turns than one more than the times that
-- another thread changes the count leaves the loop: it has a slot, or is sent away.
pub acquire_ends :
    (i : ℕ) (s : System) (schedule : List ℕ) (cur : ℕ)
    → phase_at i s.threads ≡ some (loaded cur)
    → changes i s schedule + 1 < turns_of i schedule
    → leaves i s schedule ≡ true
acquire_ends i s schedule cur h l = leaves-stale i s schedule cur h (ground arith)
