-- ===== src/Tasks/Priority/Weights.antt =====
-- The share of each lane while all lanes are ready.
use picasu.Prelude.{
  ℕ, zero, suc, ◌+◌, ◌*◌, ◌≡◌, refl, ap, ◌∙◌, Bool, true, Option, none, some, List, [], ◌∷◌, ◌++◌,
  map, ◌==◌, if◌then◌else◌, arith,
}
use picasu.Tasks.Priority.{
  SchedulerState, default_state, lane_weights, aged, accrue, best_lane, skip_others, pick_lane,
  picks,
}

abbrev pub tally : ℕ → List (Option ℕ) → ℕ
tally i [] = 0
tally i (none ∷ lanes) = tally i lanes
tally i (some j ∷ lanes) = (if j == i then 1 else 0) + tally i lanes

abbrev pub repeat {ℓ} : {A : Type ℓ} → ℕ → A → List A
repeat zero x = []
repeat (suc n) x = x ∷ repeat n x

-- Sixteen picks with all five lanes ready.
abbrev pub cycle : List (List Bool)
cycle = repeat 16 (true ∷ true ∷ true ∷ true ∷ true ∷ [])

abbrev pub cycles : ℕ → List (List Bool)
cycles zero = []
cycles (suc n) = cycle ++ cycles n

abbrev pub shares : List (Option ℕ) → List ℕ
shares lanes = map (λ i. tally i lanes) (0 ∷ 1 ∷ 2 ∷ 3 ∷ 4 ∷ [])

tally-append : (i : ℕ) (xs ys : List (Option ℕ)) → tally i (xs ++ ys) ≡ tally i xs + tally i ys
tally-append i [] ys = omega arith
tally-append i (none ∷ xs) ys = tally-append i xs ys
tally-append i (some j ∷ xs) ys = omega (arith, tally-append i xs ys)

picks-append :
    (xs ys : List (List Bool)) (s : SchedulerState)
    → picks (xs ++ ys) s
      ≡ ((picks ys (picks xs s).0).0, (picks xs s).1 ++ (picks ys (picks xs s).0).1)
unfolding picks
picks-append [] ys s = refl
picks-append (r ∷ xs) ys s =
    ap (λ p. (p.0, (pick_lane r s).1 ∷ p.1)) (picks-append xs ys (pick_lane r s).0)

abbrev settled : SchedulerState
settled = record { deficit = 0 ∷ 0 ∷ 0 ∷ 0 ∷ 0 ∷ []; skips = 0 ∷ 1 ∷ 3 ∷ 8 ∷ 7 ∷ [] }

first_cycle : (picks cycle default_state).0 ≡ settled
unfolding picks pick_lane aged accrue best_lane skip_others
first_cycle = refl

-- From here each cycle comes back to the same state.
settled-cycle : (picks cycle settled).0 ≡ settled
unfolding picks pick_lane aged accrue best_lane skip_others
settled-cycle = refl

first_shares : shares (picks cycle default_state).1 ≡ lane_weights
unfolding picks pick_lane aged accrue best_lane skip_others
first_shares = refl

settled-shares : shares (picks cycle settled).1 ≡ lane_weights
unfolding picks pick_lane aged accrue best_lane skip_others
settled-shares = refl

abbrev times : ℕ → List ℕ → List ℕ
times n ws = map (λ w. n * w) ws

shares-append :
    (xs ys : List (Option ℕ)) (n : ℕ)
    → shares xs ≡ lane_weights
    → shares ys ≡ times n lane_weights
    → shares (xs ++ ys) ≡ times (suc n) lane_weights
shares-append xs ys n hx hy = ground (
  arith,
  tally-append 0 xs ys,
  tally-append 1 xs ys,
  tally-append 2 xs ys,
  tally-append 3 xs ys,
  tally-append 4 xs ys,
)

cycles-shares :
    (s : SchedulerState) (n : ℕ)
    → (picks cycle s).0 ≡ settled
    → shares (picks cycle s).1 ≡ lane_weights
    → shares (picks (cycles n) settled).1 ≡ times n lane_weights
    → shares (picks (cycles (suc n)) s).1 ≡ times (suc n) lane_weights
cycles-shares s n same first later =
    ap (λ p. shares p.1) (picks-append cycle (cycles n) s)
    ∙ ap (λ t. shares ((picks cycle s).1 ++ (picks (cycles n) t).1)) same
    ∙ shares-append (picks cycle s).1 (picks (cycles n) settled).1 n first later

no_cycles : (s : SchedulerState) → shares (picks [] s).1 ≡ times 0 lane_weights
unfolding picks
no_cycles s = refl

settled-cycles : (n : ℕ) → shares (picks (cycles n) settled).1 ≡ times n lane_weights
settled-cycles zero = no_cycles settled
settled-cycles (suc n) = cycles-shares settled n settled-cycle settled-shares (settled-cycles n)

-- While all five lanes are ready, from the start, any number of full cycles of 16 picks serves each lane
-- in exact proportion to its weight: 8, 4, 2, 1 and 1 times per cycle.
pub picks_by_weight :
    (n : ℕ) → shares (picks (cycles n) default_state).1 ≡ map (λ w. n * w) lane_weights
picks_by_weight zero = no_cycles default_state
picks_by_weight (suc n) = cycles-shares default_state n first_cycle first_shares (settled-cycles n)
