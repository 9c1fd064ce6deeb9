-- ===== src/Auth/LoginThrottle/Tests.antt =====
-- Runs of the tracker, and the theorems about it at concrete inputs.
use picasu.Prelude.{ℕ, ◌≡◌, refl, ◌↔◌, Option, none, some, List, [], ◌∷◌, arith}
use picasu.Assoc.{get, put}
use picasu.Assoc.Evict.{evict}
use picasu.Auth.RateLimit
use picasu.Auth.RateLimit.{Bucket}
use picasu.Auth.LoginThrottle.State.{BucketCfg, IpEntry, ThrottleEntry, LoginThrottle}
use picasu.Auth.LoginThrottle.Slots.{
  check, ip_entry, user_entry, reserve, decide_slot, rung, release, seen_ip, seen_user,
}
use picasu.Auth.LoginThrottle.Outcome.{record_failure, sweep, enforce_caps, fail_ip, fail_user}
use picasu.Auth.LoginThrottle.Invariant.{IsValid}
use picasu.Auth.LoginThrottle.Steps.{
  Call, reserves, fails, succeeds, releases, sweeps, run, run-IsValid,
}
use picasu.Auth.LoginThrottle.Bans.{check-sweep, check-record_failure}
use picasu.Auth.LoginThrottle.Flight.{Passes, reserve_granted_iff}
use picasu.Auth.LoginThrottle.Release.{ip_flight, user_flight, release-reserve}

-- The schedules of the source's own tests.
abbrev short_cfg : BucketCfg
short_cfg = record { window_secs = 10; max_failures = 2; base_ban_secs = 5; max_ban_secs = 20 }

abbrev long_cfg : BucketCfg
long_cfg = record { window_secs = 100; max_failures = 4; base_ban_secs = 7; max_ban_secs = 40 }

abbrev user_cfg : BucketCfg
user_cfg = record { window_secs = 100; max_failures = 3; base_ban_secs = 3; max_ban_secs = 30 }

abbrev bucket : BucketCfg → Bucket
bucket c = record {
  window_secs = c.window_secs;
  max_failures = c.max_failures;
  base_ban_secs = c.base_ban_secs;
  max_ban_secs = c.max_ban_secs;
  failures = [];
  ban_until = 0;
}

-- One client that failed twice and has one attempt under way against one user.
abbrev client : IpEntry
client = record {
  short = record (bucket short_cfg) { failures = 0 ∷ 1 ∷ [] };
  long = record (bucket long_cfg) { failures = 0 ∷ 1 ∷ [] };
  in_flight = 1;
  last_seen = 1;
  banned_until = 1;
}

abbrev account : ThrottleEntry
account = record {
  long = record (bucket user_cfg) { failures = 0 ∷ 1 ∷ [] };
  in_flight = 1;
  last_seen = 1;
  banned_until = 1;
}

abbrev tracker : LoginThrottle
tracker = record {
  ip = ("1.1.1.1", client) ∷ [];
  user = ("alice", account) ∷ [];
  ip_short = short_cfg;
  ip_long = long_cfg;
  user_long = user_cfg;
  longest_window = 100;
}

tracker-IsValid : IsValid 40 tracker
unfolding get
tracker-IsValid = record {
  most_fits = omega arith;
  ip_short = omega arith;
  ip_long = omega arith;
  user_long = omega arith;
  ip_keys = (refl, tt);
  user_keys = (refl, tt);
  ip_ok = λ k e h. ground arith;
  user_ok = λ k e h. ground arith;
}

abbrev ban_of : Option (LoginThrottle × ℕ) → Option ℕ
ban_of none = none
ban_of (some (t, ban)) = some ban

-- The third failure of the client is over the short threshold.
third_failure_bans : ban_of (record_failure tracker "1.1.1.1" "alice" 2) ≡ some 5
unfolding record_failure ip_entry user_entry get fail_ip fail_user RateLimit.record_failure
    RateLimit.ban_for_count RateLimit.ban_delay
third_failure_bans = refl

-- One other attempt is in flight on top of two failures: the bucket would be two over, which is free.
crowded_flight_passes : ban_of (reserve tracker "1.1.1.1" "alice" 2) ≡ some 0
unfolding reserve ip_entry user_entry get put seen_ip seen_user decide_slot rung
    RateLimit.failure_count RateLimit.ban_remaining RateLimit.peek_ban RateLimit.ban_for_count
crowded_flight_passes = refl

check-sweep_example :
    check (sweep tracker 50) "1.1.1.1" "alice" 60 ≡ check tracker "1.1.1.1" "alice" 60
check-sweep_example = check-sweep 40 tracker "1.1.1.1" "alice" 50 60 tracker-IsValid (omega arith)

check-record_failure_example :
    (t' : LoginThrottle) × (ban : ℕ) × (record_failure tracker "1.1.1.1" "alice" 2 ≡ some (t', ban))
    × (check t' "1.1.1.1" "alice" 2 ≡ ban)
check-record_failure_example =
    check-record_failure 40 tracker "1.1.1.1" "alice" 2 tracker-IsValid (omega arith)

abbrev history : List Call
history =
    fails "1.1.1.1" "alice" 2
    ∷ reserves "2.2.2.2" "bob" 3
    ∷ succeeds "2.2.2.2" "bob" 4
    ∷ releases "1.1.1.1" "alice"
    ∷ sweeps 200
    ∷ []

run-IsValid_example : (t' : LoginThrottle) × (run tracker history ≡ some t') × IsValid 40 t'
run-IsValid_example = run-IsValid 40 tracker history tracker-IsValid (omega arith)

found_client : ip_entry tracker "1.1.1.1" ≡ some client
unfolding ip_entry get
found_client = refl

found_account : user_entry tracker "alice" ≡ some account
unfolding user_entry get
found_account = refl

reserve_granted_iff_example :
    (t' : LoginThrottle) × (ban : ℕ) × (reserve tracker "1.1.1.1" "alice" 2 ≡ some (t', ban))
    × ((ban ≡ 0) ↔ (
        (check tracker "1.1.1.1" "alice" 2 ≡ 0)
        × Passes 2 client.short 1
        × Passes 2 client.long 1
        × Passes 2 account.long 1))
unfolding RateLimit.failure_count
reserve_granted_iff_example =
    reserve_granted_iff 40 tracker "1.1.1.1" "alice" 2 client account tracker-IsValid found_client
      found_account (omega arith) (omega arith) (omega arith)

abbrev granted : LoginThrottle
granted = record tracker {
  ip = ("1.1.1.1", record client { in_flight = 2; last_seen = 2 }) ∷ [];
  user = ("alice", record account { in_flight = 2; last_seen = 2 }) ∷ [];
}

grants : reserve tracker "1.1.1.1" "alice" 2 ≡ some (granted, 0)
unfolding reserve ip_entry user_entry get put seen_ip seen_user decide_slot rung
    RateLimit.failure_count RateLimit.ban_remaining RateLimit.peek_ban RateLimit.ban_for_count
grants = refl

release-reserve_example :
    (ip_flight (release granted "1.1.1.1" "alice") "1.1.1.1" ≡ ip_flight tracker "1.1.1.1")
    × (user_flight (release granted "1.1.1.1" "alice") "alice" ≡ user_flight tracker "alice")
    × ((later : ℕ)
        → check (release granted "1.1.1.1" "alice") "1.1.1.1" "alice" later
          ≡ check tracker "1.1.1.1" "alice" later)
unfolding get
release-reserve_example =
    release-reserve 40 tracker granted "1.1.1.1" "alice" 2 tracker-IsValid (omega arith)
      (omega arith) grants "1.1.1.1" "alice"

abbrev after_failure : LoginThrottle
after_failure = record tracker {
  ip =
      (
        "1.1.1.1",
        record client {
          short = record (bucket short_cfg) { failures = 0 ∷ 1 ∷ 2 ∷ []; ban_until = 7 };
          long = record (bucket long_cfg) { failures = 0 ∷ 1 ∷ 2 ∷ [] };
          last_seen = 2;
          banned_until = 7;
        },
      )
      ∷ [];
  user =
      (
        "alice",
        record account {
          long = record (bucket user_cfg) { failures = 0 ∷ 1 ∷ 2 ∷ [] };
          last_seen = 2;
          banned_until = 2;
        },
      )
      ∷ [];
}

fails_third : record_failure tracker "1.1.1.1" "alice" 2 ≡ some (after_failure, 5)
unfolding record_failure ip_entry user_entry get put fail_ip fail_user enforce_caps evict
    RateLimit.record_failure RateLimit.ban_for_count RateLimit.ban_delay
fails_third = refl
