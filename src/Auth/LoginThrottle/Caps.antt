-- ===== src/Auth/LoginThrottle/Caps.antt =====
-- The tracker's construction, and the bound on its memory.
use picasu.Prelude.{ℕ, ◌≤◌, ◌≡◌, ◌⊎◌, String, false, some, [], max, arith, u64_max, length}
use picasu.Assoc.{get, retain, retain-Unique}
use picasu.Assoc.Evict.{evict_capped}
use picasu.Auth.RateLimit
use picasu.Auth.RateLimit.{Bucket, ok}
use picasu.Auth.LoginThrottle.State.{
  BucketCfg, IpEntry, ThrottleEntry, LoginThrottle, created, new, validate,
}
use picasu.Auth.LoginThrottle.Outcome.{
  sweep, enforce_caps, ip_evictable, user_evictable, ip_seen, user_seen, ip_lives, user_lives,
  max_ip_entries, max_user_entries,
}
use picasu.Auth.LoginThrottle.Invariant.{IsValid, IsSchedule}

validates :
    (most : ℕ) (c : BucketCfg) (b : Bucket)
    → c.max_ban_secs ≤ most
    → validate c ≡ ok b
    → IsSchedule most c
unfolding validate RateLimit.new
validates most c b h e = ground arith

abbrev fresh : BucketCfg → Bucket
fresh c = record {
  window_secs = c.window_secs;
  max_failures = c.max_failures;
  base_ban_secs = c.base_ban_secs;
  max_ban_secs = c.max_ban_secs;
  failures = [];
  ban_until = 0;
}

validate-ok : (most : ℕ) (c : BucketCfg) → IsSchedule most c → validate c ≡ ok (fresh c)
unfolding validate RateLimit.new
validate-ok most c h = ground arith

empty : BucketCfg → BucketCfg → BucketCfg → LoginThrottle
empty short long user = record {
  ip = [];
  user = [];
  ip_short = short;
  ip_long = long;
  user_long = user;
  longest_window = max (max short.window_secs long.window_secs) user.window_secs;
}

-- A tracker comes of three schedules that validate, and is empty.
created_inv :
    (short long user : BucketCfg) (t : LoginThrottle)
    → new short long user ≡ created t
    → (t ≡ empty short long user)
      × ((b : Bucket) × (validate short ≡ ok b))
      × ((b : Bucket) × (validate long ≡ ok b))
      × ((b : Bucket) × (validate user ≡ ok b))
unfolding new empty
created_inv short long user t h = (ground arith, ground arith, ground arith, ground arith)

empty-IsValid :
    (most : ℕ) (short long user : BucketCfg)
    → most ≤ u64_max
    → IsSchedule most short
    → IsSchedule most long
    → IsSchedule most user
    → IsValid most (empty short long user)
unfolding empty get
empty-IsValid most short long user mf s l u = record {
  most_fits = mf;
  ip_short = s;
  ip_long = l;
  user_long = u;
  ip_keys = tt;
  user_keys = tt;
  ip_ok = λ k e h. cc;
  user_ok = λ k e h. cc;
}

-- With caps of at most `most`, a 64-bit number, the constructor accepts exactly three valid schedules, and what it builds is a valid tracker.
pub new_tracker_iff :
    (most : ℕ) (short long user : BucketCfg)
    → most ≤ u64_max
    → short.max_ban_secs ≤ most
    → long.max_ban_secs ≤ most
    → user.max_ban_secs ≤ most
    → ((t : LoginThrottle)
        → new short long user ≡ created t
        → IsValid most t × IsSchedule most short × IsSchedule most long × IsSchedule most user)
      × (IsSchedule most short × IsSchedule most long × IsSchedule most user
          → (t : LoginThrottle) × (new short long user ≡ created t))
unfolding new empty
new_tracker_iff most short long user mf fs fl fu = (
  λ t h.
      let (e, (bs, vs), (bl, vl), (bu, vu)) = created_inv short long user t h in
      let s = validates most short bs fs vs in
      let l = validates most long bl fl vl in
      let u = validates most user bu fu vu in
      (rw e (empty-IsValid most short long user mf s l u), s, l, u),
  λ h. (
    empty short long user,
    rw (validate-ok most short h.0, validate-ok most long h.1, validate-ok most user h.2, new),
  ),
)

-- After a sweep of a valid tracker each map is within its cap, or holds only entries with a live ban or a held slot.
pub sweep_capped :
    (most : ℕ) (t : LoginThrottle) (now : ℕ)
    → IsValid most t
    → ((length (sweep t now).ip ≤ max_ip_entries)
        ⊎ ((k : String) (e : IpEntry)
            → get k (sweep t now).ip ≡ some e
            → ip_evictable now e ≡ false))
      × ((length (sweep t now).user ≤ max_user_entries)
          ⊎ ((k : String) (e : ThrottleEntry)
              → get k (sweep t now).user ≡ some e
              → user_evictable now e ≡ false))
unfolding sweep enforce_caps
sweep_capped most t now v = (
  evict_capped (ip_evictable now) ip_seen max_ip_entries
      (retain (ip_lives t.longest_window now) t.ip) (retain-Unique _ t.ip v.ip_keys),
  evict_capped (user_evictable now) user_seen max_user_entries
      (retain (user_lives t.longest_window now) t.user) (retain-Unique _ t.user v.user_keys),
)
