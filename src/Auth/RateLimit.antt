-- ===== src/Auth/RateLimit.antt =====
-- backend/src/auth/rate_limit.rs: the ban schedule and one sliding-window bucket.
pub mod Delay
mod Window
pub mod Ban
mod Tests
use picasu.Prelude.{
  ℕ, zero, suc, ◌+◌, ◌-◌, ◌/◌, ◌%◌, min, List, [], ◌∷◌, ◌++◌, ltb, leb, ◌==◌, if◌then◌else◌, length,
  filter, u32_max, saturating_add, saturating_mul, saturating_sub,
}

-- The rounds of `for _ in 0..generation`, with the early return.
ban_rounds : ℕ → ℕ → ℕ → ℕ
ban_rounds cap_secs delay zero = min delay cap_secs
ban_rounds cap_secs delay (suc rounds) =
    let doubled = saturating_mul delay 2 in
    let rest = ban_rounds cap_secs doubled rounds in if leb cap_secs doubled then cap_secs else rest

unfoldable pub ban_delay : ℕ → ℕ → ℕ → ℕ
unfolding ban_rounds
ban_delay base_secs cap_secs generation = ban_rounds cap_secs base_secs generation

pub data ConfigError : Type 0 where
  zero_window zero_failures zero_base cap_below_base : ConfigError

-- `failures` is the deque, front first.
pub record Bucket : Type 0 where
  pub window_secs : ℕ
  pub max_failures : ℕ
  pub base_ban_secs : ℕ
  pub max_ban_secs : ℕ
  pub failures : List ℕ
  pub ban_until : ℕ

pub data Built : Type 0 where
  ok : Bucket → Built
  err : ConfigError → Built

unfoldable pub new : ℕ → ℕ → ℕ → ℕ → Built
new window_secs max_failures base_ban_secs max_ban_secs =
    if window_secs == 0
    then err zero_window
    else if max_failures == 0
    then err zero_failures
    else if base_ban_secs == 0
    then err zero_base
    else if ltb max_ban_secs base_ban_secs
    then err cap_below_base
    else ok (record {
      window_secs = window_secs;
      max_failures = max_failures;
      base_ban_secs = base_ban_secs;
      max_ban_secs = max_ban_secs;
      failures = [];
      ban_until = 0;
    })

unfoldable pub ban_remaining : Bucket → ℕ → ℕ
ban_remaining b now = saturating_sub b.ban_until now

unfoldable pub failure_count : Bucket → ℕ → ℕ
failure_count b now = length (filter (λ old. ltb (saturating_sub now old) b.window_secs) b.failures)

unfoldable pub ban_for_count : Bucket → ℕ → ℕ
ban_for_count b count =
    if leb count b.max_failures
    then 0
    else let over = count - b.max_failures in
      if over % 2 == 0
      then 0
      else ban_delay b.base_ban_secs b.max_ban_secs (min ((over - 1) / 2) u32_max)

unfoldable pub peek_ban : Bucket → ℕ → ℕ → ℕ
peek_ban b now extra_failures =
    let remaining = ban_remaining b now in
    if ltb 0 remaining
    then remaining
    else ban_for_count b (saturating_add (failure_count b now) extra_failures)

-- The `while` that pops the front as long as it has left the window.
pub drop_stale : ℕ → ℕ → List ℕ → List ℕ
drop_stale window_secs now [] = []
drop_stale window_secs now (old ∷ rest) =
    let pruned = drop_stale window_secs now rest in
    if leb window_secs (saturating_sub now old) then pruned else old ∷ rest

-- The bucket after the call, and the ban applied.
unfoldable pub record_failure : Bucket → ℕ → Bucket × ℕ
unfolding drop_stale
record_failure b now =
    if ltb now b.ban_until
    then (b, b.ban_until - now)
    else let failures = drop_stale b.window_secs now b.failures ++ now ∷ [] in
      let delay = ban_for_count b (length failures) in
      if delay == 0
      then (record b { failures = failures }, 0)
      else (record b { failures = failures; ban_until = saturating_add now delay }, delay)

unfoldable pub record_success : Bucket → Bucket
record_success b = record b { failures = []; ban_until = 0 }
