-- ===== src/Auth/RateLimit/Ban.antt =====
-- What a bucket reports and what it records.
use picasu.Prelude.{
  ℕ, ◌+◌, ◌*◌, ◌^◌, ◌-◌, ◌/◌, ◌%◌, ◌⊎◌, ◌≤◌, ◌<◌, min, ◌≡◌, refl, List, [], ◌∷◌, ◌++◌, arith,
  length, u64_max, u32_max, saturating_add, max, All, ◌↔◌,
}
use picasu.Auth.RateLimit.{
  Bucket, ok, new, ban_remaining, ban_for_count, peek_ban, drop_stale, record_failure,
}
use picasu.Auth.RateLimit.Delay.{ban_delay_lem, ban_delay_mono}
use picasu.Auth.RateLimit.Window.{
  Ascending, Ascending-above, Ascending-snoc, Ascending-drop_stale, length-drop_stale,
  failure_count-le,
}

-- The bucket has a valid schedule, and its state was recorded by a clock that does not go back and
-- last read `last`.
pub record IsValid (last : ℕ) (b : Bucket) : Type 0 where
  pub window : 1 ≤ b.window_secs
  pub failures : 1 ≤ b.max_failures
  pub base : 1 ≤ b.base_ban_secs
  pub cap : b.base_ban_secs ≤ b.max_ban_secs
  pub cap_fits : b.max_ban_secs ≤ u64_max
  pub in_order : Ascending 0 last b.failures
  pub ban_fits : b.ban_until ≤ u64_max

pub ban_for_count-le :
    (b : Bucket) (count : ℕ) → b.max_ban_secs ≤ u64_max → ban_for_count b count ≤ b.max_ban_secs
unfolding ban_for_count
ban_for_count-le b count h = ground (
  arith,
  ban_delay_lem b.base_ban_secs b.max_ban_secs (min ((count - b.max_failures - 1) / 2) u32_max),
)

-- On a valid bucket the n-th failure past the threshold (with (n - 1) / 2 at most 2^32 - 1) bans if n
-- is odd, for `min(base * 2^((n - 1) / 2), cap)`, and is free if n is even.
pub ban_for_count_schedule :
    (b : Bucket) (last g : ℕ)
    → IsValid last b
    → g ≤ u32_max
    → (ban_for_count b (b.max_failures + (2 * g + 1))
        ≡ min (b.base_ban_secs * 2 ^ g) b.max_ban_secs)
      × (ban_for_count b (b.max_failures + 2 * g) ≡ 0)
unfolding ban_for_count
ban_for_count_schedule b last g v h =
    (ground (arith, ban_delay_lem b.base_ban_secs b.max_ban_secs g), ground arith)

-- On a valid bucket with fewer than 2^64 - 1 failures, what `peek_ban` predicts for one more failure is what `record_failure` then applies.
pub peek_ban-record_failure :
    (b : Bucket) (last now : ℕ)
    → IsValid last b
    → length b.failures < u64_max
    → peek_ban b now 1 ≡ (record_failure b now).1
unfolding peek_ban record_failure ban_remaining
peek_ban-record_failure b last now v h =
    ground (arith, length-drop_stale b now last, failure_count-le b now)

-- Recording a failure keeps a bucket valid when the clock, a 64-bit number, has not gone back: the
-- failures stay sorted by time and none is later than now.
pub record_failure-IsValid :
    (b : Bucket) (last now : ℕ)
    → last ≤ now
    → now ≤ u64_max
    → IsValid last b
    → IsValid now (record_failure b now).0
unfolding record_failure
record_failure-IsValid b last now l f v = ground (
  arith,
  Ascending-above 0 last now b.failures,
  Ascending-snoc 0 last now (drop_stale b.window_secs now b.failures),
  Ascending-drop_stale b.window_secs now 0 last b.failures,
)

-- What outlives a call: every ban lasts from 1 to `most` seconds, and its end is a word.
abbrev pub IsSound : ℕ → Bucket → Type 0
IsSound most b =
    (1 ≤ b.base_ban_secs)
    × (b.base_ban_secs ≤ b.max_ban_secs)
    × (b.max_ban_secs ≤ most)
    × (b.ban_until ≤ u64_max)

module _ (b : Bucket) (most now : ℕ) (sound : IsSound most b) (fits : now + most ≤ u64_max) where
  delay_le : (count : ℕ) → ban_for_count b count ≤ most
  delay_le count = omega (arith, ban_for_count-le b count)

  -- The ban that a failure reports is the ban that then remains.
  pub ban_remaining-record_failure :
      ban_remaining (record_failure b now).0 now ≡ (record_failure b now).1
  unfolding record_failure ban_remaining
  ban_remaining-record_failure =
      ground (arith, delay_le (length (drop_stale b.window_secs now b.failures ++ now ∷ [])))

  pub record_failure-IsSound : IsSound most (record_failure b now).0
  unfolding record_failure
  record_failure-IsSound = ground arith

  -- No ban ends later than the old one and the reported one.
  pub record_failure-ban_until :
      (record_failure b now).0.ban_until
      ≤ max b.ban_until (saturating_add now (record_failure b now).1)
  unfolding record_failure
  record_failure-ban_until = ground arith

abbrev fresh : ℕ → ℕ → ℕ → ℕ → Bucket
fresh window failures base cap = record {
  window_secs = window;
  max_failures = failures;
  base_ban_secs = base;
  max_ban_secs = cap;
  failures = [];
  ban_until = 0;
}

-- With a cap below 2^64, the constructor accepts exactly the schedules with a window, a free failure, a base ban and a cap
-- that is not below the base, and what it builds is a valid bucket with no ban and no failure.
pub new_accepts_iff :
    (window failures base cap : ℕ)
    → cap ≤ u64_max
    → ((b : Bucket)
        → new window failures base cap ≡ ok b
        → IsValid 0 b × (b.failures ≡ []) × (b.ban_until ≡ 0))
      × (((b : Bucket) × (new window failures base cap ≡ ok b))
          ↔ ((1 ≤ window) × (1 ≤ failures) × (1 ≤ base) × (base ≤ cap)))
unfolding new
new_accepts_iff window failures base cap h = (
  λ b e. ground arith,
  (λ p. let (b, e) = p in ground arith, λ g. (fresh window failures base cap, ground arith)),
)

ignored : (b : Bucket) (now : ℕ) → now < b.ban_until → (record_failure b now).0 ≡ b
unfolding record_failure
ignored b now h = ground arith

abbrev pub hammer : Bucket → List ℕ → Bucket
hammer b [] = b
hammer b (now ∷ times) = hammer (record_failure b now).0 times

-- However many attempts come in while a ban lasts, the bucket stays as it was: the ban is not
-- extended and nothing is counted towards the next.
pub hammer_ignored :
    (b : Bucket) (times : List ℕ) → All (λ t. t < b.ban_until) times → hammer b times ≡ b
hammer_ignored b [] h = refl
hammer_ignored b (now ∷ times) h = rw (ignored b now h.0) (hammer_ignored b times h.1)

-- Past the threshold a count bans if it is over by an odd number, and is free otherwise.
pub ban_for_count_zero_iff :
    (b : Bucket) (most count : ℕ)
    → IsSound most b
    → most ≤ u64_max
    → (ban_for_count b count ≡ 0) ↔ ((count ≤ b.max_failures) ⊎ ((count - b.max_failures) % 2 ≡ 0))
unfolding ban_for_count
ban_for_count_zero_iff b most count sound fits =
    let g = min ((count - b.max_failures - 1) / 2) u32_max in
    let bans =
      ban_delay_mono b.base_ban_secs b.max_ban_secs g g (omega arith) sound.1 (omega arith) in
    (λ e. ground (arith, bans), λ h. ground arith)
