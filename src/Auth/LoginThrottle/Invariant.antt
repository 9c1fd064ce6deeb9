-- ===== src/Auth/LoginThrottle/Invariant.antt =====
-- The tracker's invariant: valid schedules, one entry to a key, and snapshots of the ban ends that
-- are never early.
use picasu.Prelude.{
  ℕ, ◌+◌, ◌≤◌, ◌≡◌, refl, inl, inr, String, some, [], arith, u64_max, length, Option-cases,
}
use picasu.Assoc.{Assoc, Unique, get, put, get-put}
use picasu.Assoc.Evict.{evict-Unique, get-evict-or-none}
use picasu.Auth.RateLimit
use picasu.Auth.RateLimit.{Bucket}
use picasu.Auth.RateLimit.Ban.{IsSound, record_failure-IsSound, record_failure-ban_until}
use picasu.Auth.LoginThrottle.State.{BucketCfg, IpEntry, ThrottleEntry, LoginThrottle, build}
use picasu.Auth.LoginThrottle.Slots.{ip_entry, user_entry}
use picasu.Auth.LoginThrottle.Outcome.{
  fail_ip, fail_user, clear_ip, enforce_caps, ip_evictable, user_evictable, ip_seen, user_seen,
  max_ip_entries, max_user_entries,
}

abbrev pub IsSchedule : ℕ → BucketCfg → Type 0
IsSchedule most c =
    (1 ≤ c.window_secs)
    × (1 ≤ c.max_failures)
    × (1 ≤ c.base_ban_secs)
    × (c.base_ban_secs ≤ c.max_ban_secs)
    × (c.max_ban_secs ≤ most)

abbrev pub IpOk : ℕ → IpEntry → Type 0
IpOk most e =
    IsSound most e.short
    × IsSound most e.long
    × (e.short.ban_until ≤ e.banned_until)
    × (e.long.ban_until ≤ e.banned_until)

abbrev pub UserOk : ℕ → ThrottleEntry → Type 0
UserOk most e = IsSound most e.long × (e.long.ban_until ≤ e.banned_until)

pub record IsValid (most : ℕ) (t : LoginThrottle) : Type 0 where
  pub most_fits : most ≤ u64_max
  pub ip_short : IsSchedule most t.ip_short
  pub ip_long : IsSchedule most t.ip_long
  pub user_long : IsSchedule most t.user_long
  pub ip_keys : Unique t.ip
  pub user_keys : Unique t.user
  pub ip_ok : (k : String) (e : IpEntry) → get k t.ip ≡ some e → IpOk most e
  pub user_ok : (k : String) (e : ThrottleEntry) → get k t.user ≡ some e → UserOk most e

-- A validated schedule builds.
pub build-some :
    (most : ℕ) (c : BucketCfg)
    → IsSchedule most c
    → (b : Bucket) × (build c ≡ some b) × IsSound most b × (b.ban_until ≡ 0)
unfolding build RateLimit.new
build-some most c h = (fresh, ground arith, ground arith, refl)
  where
    fresh : Bucket
    fresh = record {
      window_secs = c.window_secs;
      max_failures = c.max_failures;
      base_ban_secs = c.base_ban_secs;
      max_ban_secs = c.max_ban_secs;
      failures = [];
      ban_until = 0;
    }

module _ (most : ℕ) (t : LoginThrottle) (v : IsValid most t) where
  -- The entry is there or is made: there is no panic.
  pub ip_entry-some : (k : String) → (e : IpEntry) × (ip_entry t k ≡ some e) × IpOk most e
  unfolding ip_entry
  ip_entry-some k = elim (Option-cases (get k t.ip)) [
    | inr (e, found) ↦ (e, ground arith, v.ip_ok k e found)
    | inl missing ↦
        let (short, short_built, short_sound, short_clear) =
          build-some most t.ip_short v.ip_short in
        let (long, long_built, long_sound, long_clear) = build-some most t.ip_long v.ip_long in
        (
          record { short = short; long = long; in_flight = 0; last_seen = 0; banned_until = 0 },
          ground (arith, missing, short_built, long_built),
          (short_sound, long_sound, omega arith, omega arith),
        )
  ]

  pub user_entry-some :
      (k : String) → (e : ThrottleEntry) × (user_entry t k ≡ some e) × UserOk most e
  unfolding user_entry
  user_entry-some k = elim (Option-cases (get k t.user)) [
    | inr (e, found) ↦ (e, ground arith, v.user_ok k e found)
    | inl missing ↦
        let (long, long_built, long_sound, long_clear) = build-some most t.user_long v.user_long in
        (
          record { long = long; in_flight = 0; last_seen = 0; banned_until = 0 },
          ground (arith, missing, long_built),
          (long_sound, omega arith),
        )
  ]

  -- A tracker whose maps changed, with the same schedules.
  pub maps-IsValid :
      (ip : Assoc IpEntry) (user : Assoc ThrottleEntry)
      → Unique ip
      → Unique user
      → ((k : String) (e : IpEntry) → get k ip ≡ some e → IpOk most e)
      → ((k : String) (e : ThrottleEntry) → get k user ≡ some e → UserOk most e)
      → IsValid most (record t { ip = ip; user = user })
  maps-IsValid ip user iu uu iok uok = record {
    most_fits = v.most_fits;
    ip_short = v.ip_short;
    ip_long = v.ip_long;
    user_long = v.user_long;
    ip_keys = iu;
    user_keys = uu;
    ip_ok = iok;
    user_ok = uok;
  }

  pub put-IpOk :
      (k : String) (e : IpEntry)
      → IpOk most e
      → (j : String) (d : IpEntry) → get j (put k e t.ip) ≡ some d
      → IpOk most d
  put-IpOk k e ok j d h = ground (arith, get-put k j e t.ip, v.ip_ok j d)

  pub put-UserOk :
      (k : String) (e : ThrottleEntry)
      → UserOk most e
      → (j : String) (d : ThrottleEntry) → get j (put k e t.user) ≡ some d
      → UserOk most d
  put-UserOk k e ok j d h = ground (arith, get-put k j e t.user, v.user_ok j d)

  pub enforce_caps-IsValid : (now : ℕ) → IsValid most (enforce_caps t now)
  unfolding enforce_caps
  enforce_caps-IsValid now =
      maps-IsValid _ _ (evict-Unique _ _ _ _ t.ip v.ip_keys)
        (evict-Unique _ _ _ _ t.user v.user_keys)
        (λ k e h. ground (
          arith,
          get-evict-or-none (ip_evictable now) ip_seen (length t.ip) max_ip_entries t.ip k,
          v.ip_ok k e,
        ))
        (λ k e h. ground (
          arith,
          get-evict-or-none (user_evictable now) user_seen (length t.user) max_user_entries t.user
              k,
          v.user_ok k e,
        ))

pub fail_ip-IpOk :
    (most : ℕ) (e : IpEntry) (now : ℕ)
    → now + most ≤ u64_max
    → IpOk most e
    → IpOk most (fail_ip e now).0
unfolding fail_ip
fail_ip-IpOk most e now fits ok = (
  record_failure-IsSound e.short most now ok.0 fits,
  record_failure-IsSound e.long most now ok.1 fits,
  omega (arith, record_failure-ban_until e.short most now ok.0 fits),
  omega (arith, record_failure-ban_until e.long most now ok.1 fits),
)

pub fail_user-UserOk :
    (most : ℕ) (e : ThrottleEntry) (now : ℕ)
    → now + most ≤ u64_max
    → UserOk most e
    → UserOk most (fail_user e now).0
unfolding fail_user
fail_user-UserOk most e now fits ok = (
  record_failure-IsSound e.long most now ok.0 fits,
  omega (arith, record_failure-ban_until e.long most now ok.0 fits),
)

pub clear_ip-IpOk : (most : ℕ) (e : IpEntry) (now : ℕ) → IpOk most e → IpOk most (clear_ip now e)
unfolding clear_ip RateLimit.record_success RateLimit.ban_remaining
clear_ip-IpOk most e now ok = omega arith
