-- ===== src/Auth/LoginThrottle/Slots.antt =====
-- backend/src/auth/login_throttle.rs: the checks before a password is verified, and the slots that
-- attempts hold meanwhile.
use picasu.Prelude.{
  ℕ, ◌+◌, min, max, String, Option, none, some, List, [], ◌∷◌, ltb, if◌then◌else◌, filter, map,
  map_or, saturating_add, saturating_sub, saturating_add32,
}
use picasu.Assoc.{get, put, update}
use picasu.Auth.RateLimit.{Bucket, ban_remaining, failure_count, peek_ban}
use picasu.Auth.LoginThrottle.State.{build, IpEntry, ThrottleEntry, LoginThrottle}

unfoldable pub ip_ban : ℕ → IpEntry → ℕ
ip_ban now e = max (ban_remaining e.short now) (ban_remaining e.long now)

unfoldable pub user_ban : ℕ → ThrottleEntry → ℕ
user_ban now e = ban_remaining e.long now

unfoldable pub check : LoginThrottle → String → String → ℕ → ℕ
unfolding ip_ban user_ban
check t ip user now =
    max (map_or 0 (ip_ban now) (get ip t.ip)) (map_or 0 (user_ban now) (get user t.user))

-- `entry(key).or_insert_with(…)`
unfoldable pub ip_entry : LoginThrottle → String → Option IpEntry
ip_entry t ip = elim (get ip t.ip) [
  | some e ↦ some e
  | none ↦ elim (build t.ip_short) [
    | none ↦ none
    | some short ↦ elim (build t.ip_long) [
      | none ↦ none
      | some long ↦
          some
            (record { short = short; long = long; in_flight = 0; last_seen = 0; banned_until = 0 })
    ]
  ]
]

unfoldable pub user_entry : LoginThrottle → String → Option ThrottleEntry
user_entry t user = elim (get user t.user) [
  | some e ↦ some e
  | none ↦ elim (build t.user_long) [
    | none ↦ none
    | some long ↦ some (record { long = long; in_flight = 0; last_seen = 0; banned_until = 0 })
  ]
]

-- The closure of `map`: the rung that the flight will open in one bucket.
unfoldable pub rung : ℕ → Bucket × ℕ → ℕ
rung now (bucket, others) =
    if ltb bucket.max_failures (saturating_add (failure_count bucket now) others)
    then peek_ban bucket now (others + 1)
    else 0

unfoldable pub maximum : List ℕ → ℕ
maximum [] = 0
maximum (x ∷ xs) = max x (maximum xs)

unfoldable pub crowded_ban : IpEntry → ThrottleEntry → ℕ → ℕ
unfolding rung maximum
crowded_ban ip_entry user_entry now = maximum (
    map (rung now) (
      filter (λ slot. ltb 0 slot.1)
        ((ip_entry.short, ip_entry.in_flight)
          ∷ (ip_entry.long, ip_entry.in_flight)
          ∷ (user_entry.long, user_entry.in_flight)
          ∷ [])))

unfoldable pub live_ban : IpEntry → ThrottleEntry → ℕ → ℕ
live_ban ip_entry user_entry now =
    max (max (ban_remaining ip_entry.short now) (ban_remaining ip_entry.long now))
      (ban_remaining user_entry.long now)

-- The entries that `reserve` finds or makes, both seen at `now`.
unfoldable pub seen_ip : IpEntry → ℕ → IpEntry
seen_ip e now = record e { last_seen = now }

unfoldable pub seen_user : ThrottleEntry → ℕ → ThrottleEntry
seen_user e now = record e { last_seen = now }

unfoldable pub hold_ip : IpEntry → IpEntry
hold_ip e = record e { in_flight = saturating_add32 e.in_flight 1 }

unfoldable pub hold_user : ThrottleEntry → ThrottleEntry
hold_user e = record e { in_flight = saturating_add32 e.in_flight 1 }

unfoldable pub decide_slot :
    LoginThrottle → String → String → ℕ → IpEntry → ThrottleEntry → LoginThrottle × ℕ
unfolding hold_ip hold_user live_ban crowded_ban
decide_slot t ip user now e u =
    let live = live_ban e u now in
    let crowded = crowded_ban e u now in
    if ltb 0 live
    then (t, live)
    else if ltb 0 crowded
    then (t, crowded)
    else (record t { ip = put ip (hold_ip e) t.ip; user = put user (hold_user u) t.user }, 0)

unfoldable pub reserve : LoginThrottle → String → String → ℕ → Option (LoginThrottle × ℕ)
reserve t ip user now = elim (ip_entry t ip) [
  | none ↦ none
  | some e ↦ elim (user_entry t user) [
    | none ↦ none
    | some u ↦
        let e' = seen_ip e now in
        let u' = seen_user u now in
        some (
          decide_slot (record t { ip = put ip e' t.ip; user = put user u' t.user }) ip user now e'
            u')
  ]
]

unfoldable pub give_ip : IpEntry → IpEntry
give_ip e = record e { in_flight = saturating_sub e.in_flight 1 }

unfoldable pub give_user : ThrottleEntry → ThrottleEntry
give_user e = record e { in_flight = saturating_sub e.in_flight 1 }

unfoldable pub release : LoginThrottle → String → String → LoginThrottle
release t ip user = record t { ip = update ip give_ip t.ip; user = update user give_user t.user }

unfoldable pub remaining : LoginThrottle → String → String → ℕ → ℕ
remaining t ip user now =
    let ip_entry = get ip t.ip in
    let short =
      saturating_sub t.ip_short.max_failures (map_or 0 (λ e. failure_count e.short now) ip_entry) in
    let long =
      saturating_sub t.ip_long.max_failures (map_or 0 (λ e. failure_count e.long now) ip_entry) in
    let user_entry = get user t.user in
    let user =
      saturating_sub t.user_long.max_failures
        (map_or 0 (λ e. failure_count e.long now) user_entry) in
    min (min short long) user
