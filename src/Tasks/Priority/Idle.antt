-- ===== src/Tasks/Priority/Idle.antt =====
-- What a lane that was alone for a while meets when another lane becomes ready.
use picasu.Prelude.{
  ℕ, zero, suc, ◌+◌, ◌-◌, ◌*◌, ◌%◌, ◌^◌, ◌≤◌, ◌<◌, ◌≡◌, ap, ◌∙◌, Bool, true, false, some, List, [],
  ◌∷◌, arith,
}
use picasu.Tasks.Priority.{
  SchedulerState, default_state, aged, accrue, best_lane, skip_others, pick_lane, picks,
}
use picasu.Tasks.Priority.Weights.{repeat}

abbrev interactive_only : List Bool
interactive_only = true ∷ false ∷ false ∷ false ∷ false ∷ []

abbrev interactive_and_scan : List Bool
interactive_and_scan = true ∷ false ∷ true ∷ false ∷ false ∷ []

abbrev alone : ℕ → SchedulerState
alone m = record {
  deficit = (2 ^ 32 - 8 * m) % 2 ^ 32 ∷ 0 ∷ 0 ∷ 0 ∷ 0 ∷ [];
  skips = 0 ∷ 0 ∷ 0 ∷ 0 ∷ 0 ∷ [];
}

drift :
    (m : ℕ)
    → m ≤ 2 ^ 28
    → ((((2 ^ 32 - 8 * m) % 2 ^ 32 + 8) % 2 ^ 32) + (2 ^ 32 - 16)) % 2 ^ 32
      ≡ (2 ^ 32 - 8 * suc m) % 2 ^ 32
drift m h = omega arith

pick_alone : (m : ℕ) → m ≤ 2 ^ 28 → (pick_lane interactive_only (alone m)).0 ≡ alone (suc m)
unfolding pick_lane aged accrue best_lane skip_others
pick_alone m h =
    ap (λ d. record { deficit = d ∷ 0 ∷ 0 ∷ 0 ∷ 0 ∷ []; skips = 0 ∷ 0 ∷ 0 ∷ 0 ∷ 0 ∷ [] })
      (drift m h)

picks-alone :
    (n m : ℕ) → n + m ≤ 2 ^ 28 → (picks (repeat n interactive_only) (alone m)).0 ≡ alone (n + m)
unfolding picks
picks-alone zero m h = ap alone (omega arith)
picks-alone (suc n) m h =
    ap (λ s. (picks (repeat n interactive_only) s).0) (pick_alone m (omega arith))
    ∙ picks-alone n (suc m) (omega arith)
    ∙ ap alone (omega arith)

scan_wins : (n : ℕ) → 1 ≤ n → n ≤ 2 ^ 28 → (pick_lane interactive_and_scan (alone n)).1 ≡ some 2
unfolding pick_lane aged accrue best_lane skip_others
scan_wins n l h =
    let low : (((2 ^ 32 - 8 * n) % 2 ^ 32 + 8) % 2 ^ 32 + 2 ^ 31) % 2 ^ 32 < 2 ^ 31 + 2 =
      omega arith in
    ground (arith, low)

-- If the interactive lane alone was ready for any number of picks from 1 to 2^28, then the first pick
-- with the scan lane ready beside it serves the scan lane, although its weight is a quarter.
pub scan_overtakes :
    (n : ℕ)
    → 1 ≤ n
    → n ≤ 2 ^ 28
    → (pick_lane interactive_and_scan (picks (repeat n interactive_only) default_state).0).1
      ≡ some 2
scan_overtakes n l h =
    ap (λ s. (pick_lane interactive_and_scan s).1)
      (picks-alone n 0 (omega arith) ∙ ap alone (omega arith))
    ∙ scan_wins n l h
