-- ===== src/Tasks/Priority/Starvation.antt =====
-- How long a ready lane waits at most.
use picasu.Prelude.{
  tests, ltb→lt, ℕ, zero, suc, ◌+◌, ◌-◌, ◌*◌, ◌<◌, ◌≤◌, ◌≡◌, ◌≢◌, refl, sym, ap, ◌∙◌, Bool, true,
  false, Option, none, some, List, [], ◌∷◌, length, All, Bool-cases, ltb, leb, ◌==◌, if◌then◌else◌,
  ◌⊎◌, inl, inr, arith,
}
use picasu.Tasks.Priority.{
  SchedulerState, lane_count, max_skips, entry, set, skip_others, pick_lane, picks,
}
use picasu.Tasks.Priority.Picks.{
  is_ready_at, aged-some, aged-none, pick_lane-cases, pick_lane-ready, is_ready_at-lt,
}

-- How many lanes were skipped so often that they are served by age.
abbrev crowd : List ℕ → ℕ
crowd [] = 0
crowd (s ∷ skips) = (if leb max_skips s then 1 else 0) + crowd skips

length-set : (xs : List ℕ) (i v : ℕ) → length (set xs i v) ≡ length xs
length-set [] i v = refl
length-set (x ∷ xs) zero v = refl
length-set (x ∷ xs) (suc i) v = ap suc (length-set xs i v)

entry-set : (xs : List ℕ) (i j v : ℕ) → i ≢ j → entry (set xs i v) j ≡ entry xs j
entry-set [] i j v d = refl
entry-set (x ∷ xs) zero zero v d = absurd (d refl)
entry-set (x ∷ xs) zero (suc j) v d = refl
entry-set (x ∷ xs) (suc i) zero v d = refl
entry-set (x ∷ xs) (suc i) (suc j) v d = entry-set xs i j v (λ e. d (ap suc e))

entry-set-same : (xs : List ℕ) (i v : ℕ) → i < length xs → entry (set xs i v) i ≡ v
entry-set-same [] i v l = absurd (omega arith)
entry-set-same (x ∷ xs) zero v l = refl
entry-set-same (x ∷ xs) (suc i) v l = entry-set-same xs i v (omega arith)

crowd-set :
    (xs : List ℕ) (i : ℕ)
    → i < length xs
    → max_skips ≤ entry xs i
    → crowd (set xs i 0) + 1 ≡ crowd xs
crowd-set [] i l h = absurd (omega arith)
crowd-set (x ∷ xs) zero l h = ground arith
crowd-set (x ∷ xs) (suc i) l h = ground (arith, crowd-set xs i)

crowd-le : (xs : List ℕ) → crowd xs ≤ length xs
crowd-le [] = omega arith
crowd-le (x ∷ xs) = ground (arith, crowd-le xs)

-- A lane that is not old takes its place among those that may be.
crowd-lt : (xs : List ℕ) (i : ℕ) → i < length xs → entry xs i < max_skips → crowd xs < length xs
crowd-lt [] i l h = absurd (omega arith)
crowd-lt (x ∷ xs) zero l h = ground (arith, crowd-le xs)
crowd-lt (x ∷ xs) (suc i) l h = ground (arith, crowd-lt xs i)

length-skip_others :
    (w n : ℕ) (ready : List Bool) (xs : List ℕ) → length (skip_others w n ready xs) ≡ length xs
unfolding skip_others
length-skip_others w n [] xs = refl
length-skip_others w n (b ∷ ready) [] = refl
length-skip_others w n (b ∷ ready) (x ∷ xs) = ap suc (length-skip_others w (suc n) ready xs)

entry-skip_others-winner :
    (w n i : ℕ) (ready : List Bool) (xs : List ℕ)
    → w ≡ n + i
    → entry (skip_others w n ready xs) i ≡ entry xs i
unfolding skip_others
entry-skip_others-winner w n i [] xs e = refl
entry-skip_others-winner w n i (b ∷ ready) [] e = refl
entry-skip_others-winner w n zero (b ∷ ready) (x ∷ xs) e = ground arith
entry-skip_others-winner w n (suc i) (b ∷ ready) (x ∷ xs) e =
    entry-skip_others-winner w (suc n) i ready xs (omega arith)

entry-skip_others :
    (w n i : ℕ) (ready : List Bool) (xs : List ℕ)
    → w ≢ n + i
    → is_ready_at ready i ≡ true
    → i < length xs
    → entry xs i < max_skips
    → entry (skip_others w n ready xs) i ≡ entry xs i + 1
unfolding skip_others
entry-skip_others w n i [] xs d r l h = absurd (ground arith)
entry-skip_others w n i (b ∷ ready) [] d r l h = absurd (omega arith)
entry-skip_others w n zero (b ∷ ready) (x ∷ xs) d r l h = ground arith
entry-skip_others w n (suc i) (b ∷ ready) (x ∷ xs) d r l h =
    entry-skip_others w (suc n) i ready xs (λ e. d (omega arith)) r (omega arith) h

Nat-cases : (i j : ℕ) → (i ≡ j) ⊎ (i ≢ j)
Nat-cases i j = ground arith

-- What is left of a lane's wait.
abbrev patience : ℕ → List ℕ → ℕ
patience i skips = 5 * (max_skips - entry skips i) + crowd skips

-- Each pick that does not serve a ready lane shortens its wait.
pick_lane-patience :
    (i : ℕ) (ready : List Bool) (state : SchedulerState)
    → length state.skips ≡ lane_count
    → length ready ≡ lane_count
    → i < lane_count
    → is_ready_at ready i ≡ true
    → ((pick_lane ready state).1 ≡ some i)
      ⊎ ((patience i (pick_lane ready state).0.skips < patience i state.skips)
          × (length (pick_lane ready state).0.skips ≡ lane_count))
pick_lane-patience i ready state len lanes fits r = elim (pick_lane-cases ready state) [
  | inl (j, old, served) ↦
      let (k, at_k, _, skipped, inside) = aged-some 0 ready state.skips j old in
      let same : j ≡ k = omega arith in
      let fewer = crowd-set state.skips j (rw same inside) (rw same skipped) in
      elim (Nat-cases i j) [
        | inl e ↦ inl (rw (served, e) refl)
        | inr d ↦
            let kept = entry-set state.skips j i 0 (λ e. d (sym e)) in
            inr (rw served (omega arith), rw served (length-set state.skips j 0 ∙ len))
      ]
  | inr (inl (j, young, best, skips, served)) ↦ elim (Nat-cases i j) [
    | inl e ↦ inl (rw (served, e) refl)
    | inr d ↦
        let after = set state.skips j 0 in
        let waited = aged-none 0 ready state.skips i young r (rw len fits) in
        let kept = entry-set state.skips j i 0 (λ e. d (sym e)) in
        let inside = is_ready_at-lt ready j ((pick_lane-ready ready state).0 j served) in
        let sized = length-set state.skips j 0 in
        let bumped =
          entry-skip_others j 0 i ready after (λ e. d (omega arith)) r (omega arith)
            (omega arith) in
        let winner = entry-skip_others-winner j 0 j ready after (omega arith) in
        let reset = entry-set-same state.skips j 0 (omega arith) in
        let same_size = length-skip_others j 0 ready after in
        let few = crowd-lt (skip_others j 0 ready after) j (omega arith) (omega arith) in
        inr (rw skips (omega arith), rw skips (same_size ∙ sized ∙ len))
  ]
  | inr (inr (no_lane, served)) ↦
      let (j, found) = (pick_lane-ready ready state).1 i r in absurd (ground arith)
]

-- Whether the lane is among those served.
abbrev pub serves : ℕ → List (Option ℕ) → Bool
serves i [] = false
serves i (none ∷ lanes) = serves i lanes
serves i (some j ∷ lanes) = if j == i then true else serves i lanes

serves-first :
    (i : ℕ) (lane : Option ℕ) (lanes : List (Option ℕ))
    → lane ≡ some i
    → serves i (lane ∷ lanes) ≡ true
serves-first i none lanes e = absurd (ground arith)
serves-first i (some j) lanes e = ground arith

serves-later :
    (i : ℕ) (lane : Option ℕ) (lanes : List (Option ℕ))
    → serves i lanes ≡ true
    → serves i (lane ∷ lanes) ≡ true
serves-later i none lanes e = e
serves-later i (some j) lanes e = ground arith

picks_serve-patience :
    (i : ℕ) (series : List (List Bool)) (state : SchedulerState)
    → length state.skips ≡ lane_count
    → i < lane_count
    → All (λ ready. (length ready ≡ lane_count) × (is_ready_at ready i ≡ true)) series
    → patience i state.skips < length series
    → serves i (picks series state).1 ≡ true
unfolding picks
picks_serve-patience i [] state len fits all long = absurd (omega arith)
picks_serve-patience i (ready ∷ series) state len fits all long =
    let state' = (pick_lane ready state).0 in
    elim (pick_lane-patience i ready state len all.0.0 fits all.0.1) [
      | inl served ↦ serves-first i _ (picks series state').1 served
      | inr (less, sized) ↦
          serves-later i _ (picks series state').1
            (picks_serve-patience i series state' sized fits all.1 (omega arith))
    ]

patience-le :
    (i : ℕ) (skips : List ℕ) → length skips ≡ lane_count → i < lane_count → patience i skips ≤ 324
patience-le i skips len fits = elim (Bool-cases (ltb (entry skips i) max_skips)) [
  | inl young ↦
      omega (tests, young, crowd-lt skips i (omega arith) (ltb→lt (entry skips i) max_skips young))
  | inr old ↦ let aged : max_skips ≤ entry skips i = ground arith in omega (arith, crowd-le skips)
]

-- Whatever the counters of the five lanes are and whichever other lanes are ready, a lane that is ready
-- at every pick of a series of at least 325 picks is served in it.
pub picks_serve :
    (i : ℕ) (series : List (List Bool)) (state : SchedulerState)
    → length state.skips ≡ lane_count
    → i < lane_count
    → All (λ ready. (length ready ≡ lane_count) × (is_ready_at ready i ≡ true)) series
    → 325 ≤ length series
    → serves i (picks series state).1 ≡ true
picks_serve i series state len fits all long =
    picks_serve-patience i series state len fits all
      (omega (arith, patience-le i state.skips len fits))
