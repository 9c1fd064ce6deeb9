-- ===== src/Auth/LoginThrottle/State.antt =====
-- backend/src/auth/login_throttle.rs: the tracker's state and its construction. A panic of
-- `BucketCfg::build` is `none`.
use picasu.Prelude.{ℕ, max, Option, none, some, []}
use picasu.Assoc.{Assoc}
use picasu.Auth.RateLimit
use picasu.Auth.RateLimit.{Bucket, Built, ConfigError, ok, err}

pub record BucketCfg : Type 0 where
  pub window_secs : ℕ
  pub max_failures : ℕ
  pub base_ban_secs : ℕ
  pub max_ban_secs : ℕ

unfoldable pub validate : BucketCfg → Built
validate c = RateLimit.new c.window_secs c.max_failures c.base_ban_secs c.max_ban_secs

-- `expect`: an invalid schedule panics.
unfoldable pub build : BucketCfg → Option Bucket
unfolding validate
build c = elim (validate c) [ ok b ↦ some b | err e ↦ none ]

pub record IpEntry : Type 0 where
  pub short : Bucket
  pub long : Bucket
  pub in_flight : ℕ
  pub last_seen : ℕ
  pub banned_until : ℕ

pub record ThrottleEntry : Type 0 where
  pub long : Bucket
  pub in_flight : ℕ
  pub last_seen : ℕ
  pub banned_until : ℕ

pub record LoginThrottle : Type 0 where
  pub ip : Assoc IpEntry
  pub user : Assoc ThrottleEntry
  pub ip_short : BucketCfg
  pub ip_long : BucketCfg
  pub user_long : BucketCfg
  pub longest_window : ℕ

pub data Created : Type 0 where
  created : LoginThrottle → Created
  refused : ConfigError → Created

-- The three schedules are validated in this order before anything is stored.
unfoldable pub new : BucketCfg → BucketCfg → BucketCfg → Created
unfolding validate
new ip_short ip_long user_long = elim (validate ip_short) [
  | err e ↦ refused e
  | ok _ ↦ elim (validate ip_long) [
    | err e ↦ refused e
    | ok _ ↦ elim (validate user_long) [
      | err e ↦ refused e
      | ok _ ↦ created (record {
        ip = [];
        user = [];
        ip_short = ip_short;
        ip_long = ip_long;
        user_long = user_long;
        longest_window = max (max ip_short.window_secs ip_long.window_secs) user_long.window_secs;
      })
    ]
  ]
]
