-- ===== src/Auth/LoginThrottle/Outcome.antt =====
-- backend/src/auth/login_throttle.rs: the outcome of an attempt, and the eviction of entries.
use picasu.Prelude.{
  ℕ, max, String, Bool, ◌&&◌, ◌||◌, Option, none, some, ltb, leb, ◌==◌, length, saturating_add,
  saturating_sub,
}
use picasu.Assoc.{put, remove, retain, update}
use picasu.Assoc.Evict.{evict}
use picasu.Auth.RateLimit
use picasu.Auth.RateLimit.{Bucket, ban_remaining}
use picasu.Auth.LoginThrottle.State.{IpEntry, ThrottleEntry, LoginThrottle}
use picasu.Auth.LoginThrottle.Slots.{ip_entry, user_entry}

abbrev pub max_ip_entries : ℕ
max_ip_entries = 10_000

abbrev pub max_user_entries : ℕ
max_user_entries = 10_000

-- No live ban and no slot held.
abbrev pub ip_evictable : ℕ → IpEntry → Bool
ip_evictable now e = leb e.banned_until now && e.in_flight == 0

abbrev pub user_evictable : ℕ → ThrottleEntry → Bool
user_evictable now e = leb e.banned_until now && e.in_flight == 0

-- The key of `min_by_key`.
abbrev pub ip_seen : IpEntry → ℕ
ip_seen e = e.last_seen

abbrev pub user_seen : ThrottleEntry → ℕ
user_seen e = e.last_seen

-- Each round removes an entry, so the number of entries is fuel enough.
unfoldable pub enforce_caps : LoginThrottle → ℕ → LoginThrottle
enforce_caps t now = record t {
  ip = evict (ip_evictable now) ip_seen (length t.ip) max_ip_entries t.ip;
  user = evict (user_evictable now) user_seen (length t.user) max_user_entries t.user;
}

-- The entry after the failure, and the larger of the two bans.
unfoldable pub fail_ip : IpEntry → ℕ → IpEntry × ℕ
fail_ip e now =
    let (short, short_ban) = RateLimit.record_failure e.short now in
    let (long, long_ban) = RateLimit.record_failure e.long now in
    (
      record e {
        short = short;
        long = long;
        last_seen = now;
        banned_until =
            max (max e.banned_until (saturating_add now short_ban)) (saturating_add now long_ban);
      },
      max short_ban long_ban,
    )

unfoldable pub fail_user : ThrottleEntry → ℕ → ThrottleEntry × ℕ
fail_user e now =
    let (long, user_ban) = RateLimit.record_failure e.long now in
    (
      record e {
        long = long;
        last_seen = now;
        banned_until = max e.banned_until (saturating_add now user_ban);
      },
      user_ban,
    )

unfoldable pub record_failure : LoginThrottle → String → String → ℕ → Option (LoginThrottle × ℕ)
record_failure t ip user now = elim (ip_entry t ip) [
  | none ↦ none
  | some e ↦ elim (user_entry t user) [
    | none ↦ none
    | some u ↦
        let failed_ip = fail_ip e now in
        let failed_user = fail_user u now in
        some (
          enforce_caps
              (record t { ip = put ip failed_ip.0 t.ip; user = put user failed_user.0 t.user }) now,
          max failed_ip.1 failed_user.1,
        )
  ]
]

unfoldable pub clear_ip : ℕ → IpEntry → IpEntry
clear_ip now e = record e {
  short = RateLimit.record_success e.short;
  in_flight = saturating_sub e.in_flight 1;
  last_seen = now;
  banned_until = saturating_add now (ban_remaining e.long now);
}

unfoldable pub record_success : LoginThrottle → String → String → ℕ → LoginThrottle
record_success t ip user now = record t {
  ip = update ip (clear_ip now) t.ip;
  user = remove user t.user;
}

abbrev pub ip_lives : ℕ → ℕ → IpEntry → Bool
ip_lives window now e = ltb now e.banned_until || ltb (saturating_sub now e.last_seen) window

abbrev pub user_lives : ℕ → ℕ → ThrottleEntry → Bool
user_lives window now e = ltb now e.banned_until || ltb (saturating_sub now e.last_seen) window

unfoldable pub sweep : LoginThrottle → ℕ → LoginThrottle
sweep t now =
    enforce_caps
      (record t {
        ip = retain (ip_lives t.longest_window now) t.ip;
        user = retain (user_lives t.longest_window now) t.user;
      })
      now
