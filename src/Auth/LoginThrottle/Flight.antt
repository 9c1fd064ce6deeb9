-- ===== src/Auth/LoginThrottle/Flight.antt =====
-- The slots of attempts that are being verified: when `reserve` grants one, and what it leaves.
use picasu.Prelude.{
  ℕ, ◌+◌, ◌-◌, ◌%◌, ◌<◌, ◌≤◌, ◌≡◌, sym, max, ap₂, ◌∙◌, ◌⊎◌, ◌↔◌, String, some, arith, u64_max,
  map_or, ltb, if◌then◌else◌,
}
use mathlib.Core.Path.{subst}
use picasu.Assoc.{get}
use picasu.Auth.RateLimit
use picasu.Auth.RateLimit.{Bucket, failure_count, ban_remaining, peek_ban}
use picasu.Auth.RateLimit.Ban.{IsSound, ban_for_count_zero_iff}
use picasu.Auth.LoginThrottle.State.{IpEntry, ThrottleEntry, LoginThrottle, build}
use picasu.Auth.LoginThrottle.Slots.{
  check, ip_ban, user_ban, ip_entry, user_entry, rung, crowded_ban, live_ban, reserve, decide_slot,
  seen_ip, seen_user,
}
use picasu.Auth.LoginThrottle.Invariant.{IsValid, IpOk, UserOk, ip_entry-some, user_entry-some}
use picasu.Auth.LoginThrottle.Steps.{reserve_lem, arrived}

-- The flight in one bucket does not block: nobody else is in it, or with the others it stays within
-- the threshold, or it is over the threshold by an odd number.
abbrev pub Passes : ℕ → Bucket → ℕ → Type 0
Passes now b others =
    (others ≡ 0)
    ⊎ (failure_count b now + others ≤ b.max_failures)
    ⊎ ((failure_count b now + others - b.max_failures) % 2 ≡ 1)

module _ (most now : ℕ) (b : Bucket) (others : ℕ) (sound : IsSound most b)
    (most_fits : most ≤ u64_max) (clear : ban_remaining b now ≡ 0)
    (fits : failure_count b now + others < u64_max) where
  rung_zero_iff : (rung now (b, others) ≡ 0) ↔ (
      (failure_count b now + others ≤ b.max_failures)
      ⊎ ((failure_count b now + others - b.max_failures) % 2 ≡ 1))
  unfolding rung peek_ban
  rung_zero_iff =
      let iff = ban_for_count_zero_iff b most (failure_count b now + others + 1) sound most_fits in
      (λ h. ground (arith, iff), λ h. ground (arith, iff))

abbrev slot_ban : ℕ → Bucket → ℕ → ℕ
slot_ban now b others = if ltb 0 others then rung now (b, others) else 0

crowded_ban_lem :
    (e : IpEntry) (u : ThrottleEntry) (now : ℕ)
    → crowded_ban e u now
      ≡ max
          (slot_ban now e.short e.in_flight)
          (max (slot_ban now e.long e.in_flight) (slot_ban now u.long u.in_flight))
unfolding crowded_ban
crowded_ban_lem e u now = ground arith

-- The entry that is found or made shows what the map shows.
pub ip_entry-ban :
    (t : LoginThrottle) (ip : String) (e : IpEntry) (now : ℕ)
    → ip_entry t ip ≡ some e
    → map_or 0 (ip_ban now) (get ip t.ip) ≡ ip_ban now e
unfolding ip_entry build RateLimit.new ip_ban ban_remaining
ip_entry-ban t ip e now h = ground arith

pub user_entry-ban :
    (t : LoginThrottle) (user : String) (u : ThrottleEntry) (now : ℕ)
    → user_entry t user ≡ some u
    → map_or 0 (user_ban now) (get user t.user) ≡ user_ban now u
unfolding user_entry build RateLimit.new user_ban ban_remaining
user_entry-ban t user u now h = ground arith

decide_slot_zero_iff :
    (t : LoginThrottle) (ip user : String) (now : ℕ) (e : IpEntry) (u : ThrottleEntry)
    → ((decide_slot t ip user now e u).1 ≡ 0) ↔ ((live_ban e u now ≡ 0) × (crowded_ban e u now ≡ 0))
unfolding decide_slot
decide_slot_zero_iff t ip user now e u = (λ h. ground arith, λ h. ground arith)

live_ban-check :
    (t : LoginThrottle) (ip user : String) (now : ℕ) (e : IpEntry) (u : ThrottleEntry)
    → ip_entry t ip ≡ some e
    → user_entry t user ≡ some u
    → check t ip user now ≡ live_ban e u now
unfolding check live_ban
live_ban-check t ip user now e u he hu =
    ap₂ max (ip_entry-ban t ip e now he) (user_entry-ban t user u now hu)

-- The counters do not reach the width of a word.
abbrev pub Room : ℕ → Bucket → ℕ → Type 0
Room now b others = failure_count b now + others < u64_max

slot_ban_zero_iff :
    (most now : ℕ) (b : Bucket) (others : ℕ)
    → IsSound most b
    → most ≤ u64_max
    → ban_remaining b now ≡ 0
    → Room now b others
    → (slot_ban now b others ≡ 0) ↔ Passes now b others
slot_ban_zero_iff most now b others sound mf clear room =
    let iff = rung_zero_iff most now b others sound mf clear room in
    (λ h. ground (arith, iff), λ h. ground (arith, iff))

crowded_ban_zero_iff :
    (most now : ℕ) (e : IpEntry) (u : ThrottleEntry)
    → most ≤ u64_max
    → IpOk most e
    → UserOk most u
    → live_ban e u now ≡ 0
    → Room now e.short e.in_flight
    → Room now e.long e.in_flight
    → Room now u.long u.in_flight
    → (crowded_ban e u now ≡ 0) ↔ (
        Passes now e.short e.in_flight
        × Passes now e.long e.in_flight
        × Passes now u.long u.in_flight)
unfolding live_ban
crowded_ban_zero_iff most now e u mf eok uok live rs rl ru =
    let s = slot_ban_zero_iff most now e.short e.in_flight eok.0 mf (omega arith) rs in
    let l = slot_ban_zero_iff most now e.long e.in_flight eok.1 mf (omega arith) rl in
    let w = slot_ban_zero_iff most now u.long u.in_flight uok.0 mf (omega arith) ru in
    rw (crowded_ban_lem e u now) (
      λ h. (s.0 (omega arith), l.0 (omega arith), w.0 (omega arith)),
      λ h. omega (arith, s.1 h.0, l.1 h.1, w.1 h.2),
    )

module _ (most : ℕ) (t : LoginThrottle) (v : IsValid most t) where
  found_ip-IpOk : (k : String) (e : IpEntry) → ip_entry t k ≡ some e → IpOk most e
  found_ip-IpOk k e h =
      let (d, g, ok) = ip_entry-some most t v k in
      let same : d ≡ e = cc in subst (IpOk most) same ok

  found_user-UserOk : (k : String) (u : ThrottleEntry) → user_entry t k ≡ some u → UserOk most u
  found_user-UserOk k u h =
      let (d, g, ok) = user_entry-some most t v k in
      let same : d ≡ u = cc in subst (UserOk most) same ok

-- On a valid tracker, with the counts below 2^32 and the bans within the clock's range, `reserve`
-- returns, and it grants the slot (answers 0) exactly when `check` finds no ban and the flight blocks in
-- none of the three buckets. A lone attempt passes, and so does one that would bring a bucket over
-- its threshold by an even number with the others in flight.
pub reserve_granted_iff :
    (most : ℕ) (t : LoginThrottle) (ip user : String) (now : ℕ) (e : IpEntry) (u : ThrottleEntry)
    → IsValid most t
    → ip_entry t ip ≡ some e
    → user_entry t user ≡ some u
    → Room now e.short e.in_flight
    → Room now e.long e.in_flight
    → Room now u.long u.in_flight
    → (t' : LoginThrottle) × (ban : ℕ) × (reserve t ip user now ≡ some (t', ban))
      × ((ban ≡ 0) ↔ (
          (check t ip user now ≡ 0)
          × Passes now e.short e.in_flight
          × Passes now e.long e.in_flight
          × Passes now u.long u.in_flight))
unfolding seen_ip seen_user live_ban
reserve_granted_iff most t ip user now e u v he hu rs rl ru =
    let e' = seen_ip e now in
    let u' = seen_user u now in
    let d = decide_slot (arrived t ip user now e u) ip user now e' u' in
    let zero = decide_slot_zero_iff (arrived t ip user now e u) ip user now e' u' in
    let live = live_ban-check t ip user now e u he hu in
    let crowded = λ (z : live_ban e u now ≡ 0).
      crowded_ban_zero_iff most now e' u' v.most_fits (found_ip-IpOk most t v ip e he)
        (found_user-UserOk most t v user u hu) z rs rl ru in
    (
      d.0,
      d.1,
      reserve_lem t ip user now he hu,
      (
        λ h. let z = zero.0 h in let c = (crowded z.0).0 z.1 in (live ∙ z.0, c.0, c.1, c.2),
        λ h. let z = sym live ∙ h.0 in zero.1 (z, (crowded z).1 (h.1, h.2, h.3)),
      ),
    )
