-- ===== src/Auth/RateLimit/Tests.antt =====
-- Runs of a bucket, and the theorems about it at concrete inputs.
use picasu.Prelude.{◌≡◌, refl, [], ◌∷◌, arith}
use picasu.Auth.RateLimit.{Bucket, err, zero_window, new, ban_delay, ban_for_count, record_failure}
use picasu.Auth.RateLimit.Ban.{IsValid}

-- Three failures in ten minutes are free; two of them are recorded.
abbrev warned : Bucket
warned = record {
  window_secs = 600;
  max_failures = 3;
  base_ban_secs = 10;
  max_ban_secs = 28_800;
  failures = 5 ∷ 100 ∷ 300 ∷ [];
  ban_until = 0;
}

warned-IsValid : IsValid 300 warned
warned-IsValid = omega arith

abbrev banned : Bucket
banned = record warned { failures = 100 ∷ 300 ∷ 400 ∷ 500 ∷ []; ban_until = 510 }

fourth_bans : (record_failure warned 400).1 ≡ 10
unfolding record_failure ban_for_count ban_delay
fourth_bans = refl

-- The first failure has left the window.
stale_is_dropped : (record_failure warned 605).0.failures ≡ 100 ∷ 300 ∷ 605 ∷ []
unfolding record_failure ban_for_count ban_delay
stale_is_dropped = refl

no_window : new 0 3 10 20 ≡ err zero_window
unfolding new
no_window = refl
