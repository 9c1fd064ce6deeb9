-- ===== src/Tasks/Priority.antt =====
-- backend/src/tasks/queue/priority.rs: the lane scheduler of the background intake.
pub mod Picks
pub mod Starvation
pub mod Weights
pub mod Idle
mod Tests
use picasu.Prelude.{
  ℕ, zero, suc, ◌+◌, ◌-◌, ◌%◌, ◌^◌, Bool, true, false, not, ◌&&◌, Option, none, some, List, [], ◌∷◌,
  ltb, leb, ◌==◌, if◌then◌else◌, saturating_add32,
}

pub data Priority : Type 0 where
  interactive watcher scan expire verify : Priority

unfoldable pub lane_index : Priority → ℕ
lane_index interactive = 0
lane_index watcher = 1
lane_index scan = 2
lane_index expire = 3
lane_index verify = 4

abbrev pub lane_count : ℕ
lane_count = 5

-- An `i32` is its word in two's complement.
abbrev pub lane_weights : List ℕ
lane_weights = 8 ∷ 4 ∷ 2 ∷ 1 ∷ 1 ∷ []

abbrev pub max_skips : ℕ
max_skips = 64

-- `+`, `-` and `>` of `i32`
abbrev pub add_i32 : ℕ → ℕ → ℕ
add_i32 a b = (a + b) % 2 ^ 32

abbrev pub sub_i32 : ℕ → ℕ → ℕ
sub_i32 a b = (a + (2 ^ 32 - b)) % 2 ^ 32

abbrev pub gt_i32 : ℕ → ℕ → Bool
gt_i32 a b = ltb ((b + 2 ^ 31) % 2 ^ 32) ((a + 2 ^ 31) % 2 ^ 32)

-- The two arrays, by lane. An index is below the length wherever the code reads or writes.
pub record SchedulerState : Type 0 where
  pub deficit : List ℕ
  pub skips : List ℕ

abbrev pub default_state : SchedulerState
default_state = record { deficit = 0 ∷ 0 ∷ 0 ∷ 0 ∷ 0 ∷ []; skips = 0 ∷ 0 ∷ 0 ∷ 0 ∷ 0 ∷ [] }

abbrev pub entry : List ℕ → ℕ → ℕ
entry [] i = 0
entry (x ∷ xs) zero = x
entry (x ∷ xs) (suc i) = entry xs i

abbrev pub set : List ℕ → ℕ → ℕ → List ℕ
set [] i v = []
set (x ∷ xs) zero v = v ∷ xs
set (x ∷ xs) (suc i) v = x ∷ set xs i v

-- The first loop: the first ready lane that was skipped too often. `index` is that of the first lane.
unfoldable pub aged : ℕ → List Bool → List ℕ → Option ℕ
aged index [] skips = none
aged index (is_ready ∷ ready) [] = none
aged index (is_ready ∷ ready) (s ∷ skips) =
    let rest = aged (suc index) ready skips in
    if is_ready && leb max_skips s then some index else rest

-- The second loop.
unfoldable pub accrue : List Bool → List ℕ → List ℕ → List ℕ
accrue [] deficit weights = deficit
accrue (is_ready ∷ ready) [] weights = []
accrue (is_ready ∷ ready) (d ∷ deficit) [] = d ∷ deficit
accrue (is_ready ∷ ready) (d ∷ deficit) (w ∷ weights) =
    (if is_ready then add_i32 d w else d) ∷ accrue ready deficit weights

-- `best.is_none_or(..)`
abbrev pub better : List ℕ → ℕ → Option ℕ → Bool
better deficit index none = true
better deficit index (some current) = gt_i32 (entry deficit index) (entry deficit current)

-- The third loop.
unfoldable pub best_lane : List ℕ → ℕ → List Bool → Option ℕ → Option ℕ
best_lane deficit index [] best = best
best_lane deficit index (is_ready ∷ ready) best =
    best_lane deficit (suc index) ready
      (if is_ready && better deficit index best then some index else best)

-- The last loop: every other ready lane is skipped.
unfoldable pub skip_others : ℕ → ℕ → List Bool → List ℕ → List ℕ
skip_others winner index [] skips = skips
skip_others winner index (is_ready ∷ ready) [] = []
skip_others winner index (is_ready ∷ ready) (s ∷ skips) =
    (if is_ready && not (index == winner) then saturating_add32 s 1 else s)
    ∷ skip_others winner (suc index) ready skips

-- The sum of the weights.
abbrev pub weight_total : List ℕ → ℕ
weight_total [] = 0
weight_total (w ∷ weights) = w + weight_total weights

unfoldable pub pick_lane : List Bool → SchedulerState → SchedulerState × Option ℕ
pick_lane ready state = elim (aged 0 ready state.skips) [
  | some index ↦ (record state { skips = set state.skips index 0 }, some index)
  | none ↦
      let deficit = accrue ready state.deficit lane_weights in
      elim (best_lane deficit 0 ready none) [
        | some winner ↦ (
          record {
            deficit =
                set deficit winner (sub_i32 (entry deficit winner) (weight_total lane_weights));
            skips = skip_others winner 0 ready (set state.skips winner 0);
          },
          some winner,
        )
        | none ↦ (record state { deficit = deficit }, none)
      ]
]

-- A series of picks: the state after them, and the lanes served.
unfoldable pub picks : List (List Bool) → SchedulerState → SchedulerState × List (Option ℕ)
picks [] state = (state, [])
picks (ready ∷ later) state =
    let (state', lane) = pick_lane ready state in
    let (last, lanes) = picks later state' in (last, lane ∷ lanes)
