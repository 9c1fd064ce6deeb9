-- ===== src/Tasks/Priority/Picks.antt =====
-- Which lane one pick serves.
use picasu.Prelude.{
  ℕ, zero, suc, ◌+◌, ◌<◌, ◌≤◌, ◌≡◌, refl, Bool, true, false, ◌&&◌, Option, none, some, List, [],
  ◌∷◌, length, Bool-cases, Option-cases, leb, ◌⊎◌, inl, inr, arith,
}
use picasu.Tasks.Priority.{
  SchedulerState, lane_weights, max_skips, entry, set, aged, accrue, better, best_lane, skip_others,
  pick_lane,
}

-- The lane is ready; out of range it is not.
abbrev pub is_ready_at : List Bool → ℕ → Bool
is_ready_at [] i = false
is_ready_at (b ∷ bs) zero = b
is_ready_at (b ∷ bs) (suc i) = is_ready_at bs i

pub aged-some :
    (n : ℕ) (ready : List Bool) (skips : List ℕ) (j : ℕ)
    → aged n ready skips ≡ some j
    → (i : ℕ) × (j ≡ n + i)
      × (is_ready_at ready i ≡ true)
      × (max_skips ≤ entry skips i)
      × (i < length skips)
unfolding aged
aged-some n [] skips j h = absurd (ground arith)
aged-some n (b ∷ ready) [] j h = absurd (ground arith)
aged-some n (b ∷ ready) (s ∷ skips) j h = elim (Bool-cases (b && leb max_skips s)) [
  | inl old ↦ (0, ground arith, ground arith, ground arith, omega arith)
  | inr young ↦
      let later : aged (suc n) ready skips ≡ some j = ground arith in
      let (i, at_i, ready_i, skips_i, fits) = aged-some (suc n) ready skips j later in
      (suc i, omega (arith, at_i), ready_i, skips_i, omega (arith, fits))
]

pub aged-none :
    (n : ℕ) (ready : List Bool) (skips : List ℕ) (i : ℕ)
    → aged n ready skips ≡ none
    → is_ready_at ready i ≡ true
    → i < length skips
    → entry skips i < max_skips
unfolding aged
aged-none n [] skips i h r l = absurd (ground arith)
aged-none n (b ∷ ready) [] i h r l = absurd (omega arith)
aged-none n (b ∷ ready) (s ∷ skips) zero h r l = ground arith
aged-none n (b ∷ ready) (s ∷ skips) (suc i) h r l = ground (arith, aged-none (suc n) ready skips i)

-- What the third loop finds is what it began with, or a ready lane.
pub best_lane-ready :
    (d : List ℕ) (n : ℕ) (ready : List Bool) (best : Option ℕ) (j : ℕ)
    → best_lane d n ready best ≡ some j
    → (best ≡ some j) ⊎ ((i : ℕ) × (j ≡ n + i) × (is_ready_at ready i ≡ true))
unfolding best_lane
best_lane-ready d n [] best j h = inl h
best_lane-ready d n (true ∷ ready) best j h = elim (Bool-cases (better d n best)) [
  | inl wins ↦ elim (best_lane-ready d (suc n) ready (some n) j (rw wins at h)) [
    | inl found ↦ inr (0, ground arith, refl)
    | inr (i, at_i, ready_i) ↦ inr (suc i, omega (arith, at_i), ready_i)
  ]
  | inr loses ↦ elim (best_lane-ready d (suc n) ready best j (rw loses at h)) [
    | inl found ↦ inl found
    | inr (i, at_i, ready_i) ↦ inr (suc i, omega (arith, at_i), ready_i)
  ]
]
best_lane-ready d n (false ∷ ready) best j h = elim (best_lane-ready d (suc n) ready best j h) [
  | inl found ↦ inl found
  | inr (i, at_i, ready_i) ↦ inr (suc i, omega (arith, at_i), ready_i)
]

-- It finds one as soon as it has one.
pub best_lane-some :
    (d : List ℕ) (n : ℕ) (ready : List Bool) (best : ℕ)
    → (j : ℕ) × (best_lane d n ready (some best) ≡ some j)
unfolding best_lane
best_lane-some d n [] best = (best, refl)
best_lane-some d n (false ∷ ready) best = best_lane-some d (suc n) ready best
best_lane-some d n (true ∷ ready) best = elim (Bool-cases (better d n (some best))) [
  | inl wins ↦ rw wins (best_lane-some d (suc n) ready n)
  | inr loses ↦ rw loses (best_lane-some d (suc n) ready best)
]

pub best_lane-found :
    (d : List ℕ) (n : ℕ) (ready : List Bool) (i : ℕ)
    → is_ready_at ready i ≡ true
    → (j : ℕ) × (best_lane d n ready none ≡ some j)
unfolding best_lane
best_lane-found d n [] i r = absurd (ground arith)
best_lane-found d n (true ∷ ready) i r = best_lane-some d (suc n) ready n
best_lane-found d n (false ∷ ready) zero r = absurd (ground arith)
best_lane-found d n (false ∷ ready) (suc i) r = best_lane-found d (suc n) ready i r

-- The three ways a pick ends: by age, by deficit, or with no lane.
pub pick_lane-cases :
    (ready : List Bool) (state : SchedulerState)
    → ((j : ℕ) × (aged 0 ready state.skips ≡ some j)
        × (pick_lane ready state ≡ (record state { skips = set state.skips j 0 }, some j)))
      ⊎ (((j : ℕ) × (aged 0 ready state.skips ≡ none)
            × (best_lane (accrue ready state.deficit lane_weights) 0 ready none ≡ some j)
            × ((pick_lane ready state).0.skips ≡ skip_others j 0 ready (set state.skips j 0))
            × ((pick_lane ready state).1 ≡ some j))
          ⊎ ((best_lane (accrue ready state.deficit lane_weights) 0 ready none ≡ none)
              × ((pick_lane ready state).1 ≡ none)))
unfolding pick_lane
pick_lane-cases ready state = elim (Option-cases (aged 0 ready state.skips)) [
  | inr (j, old) ↦ inl (j, old, rw (old, pick_lane) refl)
  | inl young ↦
      elim (Option-cases (best_lane (accrue ready state.deficit lane_weights) 0 ready none)) [
        | inr (j, best) ↦ inr (
            inl
              (j, young, best, rw (young, best, pick_lane) refl, rw (young, best, pick_lane) refl))
        | inl no_lane ↦ inr (inr (no_lane, rw (young, no_lane, pick_lane) refl))
      ]
]

-- A pick serves only a lane that is ready, and it serves one whenever some lane is ready.
pub pick_lane-ready :
    (ready : List Bool) (state : SchedulerState)
    → ((j : ℕ) → (pick_lane ready state).1 ≡ some j → is_ready_at ready j ≡ true)
      × ((i : ℕ) → is_ready_at ready i ≡ true → (j : ℕ) × ((pick_lane ready state).1 ≡ some j))
pick_lane-ready ready state = elim (pick_lane-cases ready state) [
  | inl (j, old, served) ↦
      let (k, at_k, ready_k, _, _) = aged-some 0 ready state.skips j old in
      let same : j ≡ k = omega arith in
      let ready_j : is_ready_at ready j ≡ true = rw same ready_k in
      (λ l h. ground arith, λ i h. (j, rw served refl))
  | inr (inl (j, young, best, _, served)) ↦
      let found = best_lane-ready (accrue ready state.deficit lane_weights) 0 ready none j best in
      (λ l h. ground arith, λ i h. (j, served))
  | inr (inr (no_lane, served)) ↦ (
    λ l h. absurd (ground arith),
    λ i h.
        let found = best_lane-found (accrue ready state.deficit lane_weights) 0 ready i h in
        absurd (ground arith),
  )
]

pub is_ready_at-lt : (ready : List Bool) (i : ℕ) → is_ready_at ready i ≡ true → i < length ready
is_ready_at-lt [] i r = absurd (ground arith)
is_ready_at-lt (b ∷ ready) zero r = omega arith
is_ready_at-lt (b ∷ ready) (suc i) r = omega (arith, is_ready_at-lt ready i r)
