-- ===== src/Tasks/Priority/Tests.antt =====
-- The scheduler on concrete lanes.
use picasu.Prelude.{
  ℕ, zero, suc, ◌≡◌, refl, ap, Bool, true, false, some, List, [], ◌∷◌, length, All, arith,
}
use picasu.Tasks.Priority.{lane_index, verify, lane_count, default_state, aged, pick_lane, picks}
use picasu.Tasks.Priority.Picks.{is_ready_at}
use picasu.Tasks.Priority.Starvation.{serves, picks_serve}
use picasu.Tasks.Priority.Weights.{repeat}
use picasu.Tasks.Priority.Idle.{scan_overtakes}

abbrev first_and_last : List Bool
first_and_last = true ∷ false ∷ false ∷ false ∷ true ∷ []

All-repeat {ℓ κ} : {A : Type ℓ} (P : A → Type κ) (n : ℕ) (x : A) → P x → All P (repeat n x)
All-repeat P zero x p = tt
All-repeat P (suc n) x p = (p, All-repeat P n x p)

length-repeat {ℓ} : {A : Type ℓ} (n : ℕ) (x : A) → length (repeat n x) ≡ n
length-repeat zero x = refl
length-repeat (suc n) x = ap suc (length-repeat n x)

verify_lane : lane_index verify ≡ 4
unfolding lane_index
verify_lane = refl

-- A lane that was skipped 64 times wins.
old_lane_wins :
    (pick_lane
      (true ∷ false ∷ true ∷ false ∷ false ∷ [])
      (record default_state { skips = 0 ∷ 0 ∷ 64 ∷ 0 ∷ 0 ∷ [] })).1
    ≡ some 2
unfolding pick_lane aged
old_lane_wins = refl

picks_serve_example : serves 4 (picks (repeat 325 first_and_last) default_state).1 ≡ true
picks_serve_example =
    picks_serve 4 (repeat 325 first_and_last) default_state refl (omega arith)
      (All-repeat (λ ready. (length ready ≡ lane_count) × (is_ready_at ready 4 ≡ true)) 325
        first_and_last (refl, refl))
      (omega (arith, length-repeat 325 first_and_last))

scan_overtakes_example :
    (pick_lane
      (true ∷ false ∷ true ∷ false ∷ false ∷ [])
      (picks (repeat 200 (true ∷ false ∷ false ∷ false ∷ false ∷ [])) default_state).0).1
    ≡ some 2
scan_overtakes_example = scan_overtakes 200 (omega arith) (omega arith)
