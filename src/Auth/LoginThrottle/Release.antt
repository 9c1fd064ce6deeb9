-- ===== src/Auth/LoginThrottle/Release.antt =====
-- What a slot leaves behind when it is given back, and what a recorded failure does not give back.
use text.Mathlib.TextEquality.{eq_iff}
use text.Mathlib.TextPositions.{eq_refl}
use picasu.Prelude.{
  ℕ, ◌+◌, ◌<◌, ◌≤◌, ◌≡◌, sym, max, ap₂, ◌∙◌, String, some, arith, u64_max, u32_max, map_or, length,
}
use picasu.Assoc.{Assoc, get, put, update, get-put, get-update}
use picasu.Assoc.Evict.{map_or-evict}
use picasu.Auth.RateLimit
use picasu.Auth.RateLimit.{ban_remaining}
use picasu.Auth.LoginThrottle.State.{IpEntry, ThrottleEntry, LoginThrottle, build}
use picasu.Auth.LoginThrottle.Slots.{
  check, ip_ban, user_ban, ip_entry, user_entry, reserve, decide_slot, release, seen_ip, seen_user,
  hold_ip, hold_user, give_ip, give_user,
}
use picasu.Auth.LoginThrottle.Outcome.{
  enforce_caps, record_failure, fail_ip, fail_user, ip_evictable, user_evictable, ip_seen,
  user_seen, max_ip_entries, max_user_entries,
}
use picasu.Auth.LoginThrottle.Invariant.{
  IsValid, ip_entry-some, user_entry-some, fail_ip-IpOk, fail_user-UserOk,
}
use picasu.Auth.LoginThrottle.Steps.{
  reserve_lem, arrived, failed, record_failure_lem, put_both-IsValid,
}
use picasu.Auth.LoginThrottle.Flight.{ip_entry-ban, user_entry-ban}

-- The slots held on a client and on a user.
abbrev pub ip_flight : LoginThrottle → String → ℕ
ip_flight t ip = map_or 0 (λ e. e.in_flight) (get ip t.ip)

abbrev pub user_flight : LoginThrottle → String → ℕ
user_flight t user = map_or 0 (λ e. e.in_flight) (get user t.user)

pub ip_entry-flight :
    (t : LoginThrottle) (ip : String) (e : IpEntry)
    → ip_entry t ip ≡ some e
    → ip_flight t ip ≡ e.in_flight
unfolding ip_entry build RateLimit.new
ip_entry-flight t ip e h = ground arith

pub user_entry-flight :
    (t : LoginThrottle) (user : String) (u : ThrottleEntry)
    → user_entry t user ≡ some u
    → user_flight t user ≡ u.in_flight
unfolding user_entry build RateLimit.new
user_entry-flight t user u h = ground arith

-- A figure that the last write restores is as it was, at every key.
figure-restored {ℓ} :
    {V : Type ℓ} (figure : V → ℕ) (k j : String) (give : V → V) (held seen : V) (m : Assoc V)
    → map_or 0 figure (get k m) ≡ figure (give held)
    → map_or 0 figure (get j (update k give (put k held (put k seen m))))
      ≡ map_or 0 figure (get j m)
figure-restored figure k j give held seen m h =
    simp (get-update, get-put, eq_refl) (ground (arith, eq_iff k j))

module _ (t : LoginThrottle) (ip user : String) (e : IpEntry) (u : ThrottleEntry) where
  decide_slot-held :
      (now : ℕ)
      → (decide_slot t ip user now e u).1 ≡ 0
      → (decide_slot t ip user now e u).0
        ≡ record t { ip = put ip (hold_ip e) t.ip; user = put user (hold_user u) t.user }
  unfolding decide_slot
  decide_slot-held now h = ground arith

abbrev held : LoginThrottle → String → String → ℕ → IpEntry → ThrottleEntry → LoginThrottle
held t ip user now e u = record t {
  ip = put ip (hold_ip (seen_ip e now)) (put ip (seen_ip e now) t.ip);
  user = put user (hold_user (seen_user u now)) (put user (seen_user u now) t.user);
}

module _ (t : LoginThrottle) (ip user : String) (now : ℕ) (e : IpEntry) (u : ThrottleEntry)
    (has_ip : ip_entry t ip ≡ some e) (has_user : user_entry t user ≡ some u) where
  granted :
      (t' : LoginThrottle) → reserve t ip user now ≡ some (t', 0) → t' ≡ held t ip user now e u
  granted t' h =
      let d =
        decide_slot (arrived t ip user now e u) ip user now (seen_ip e now) (seen_user u now) in
      let same : some d ≡ some (t', 0) = sym (reserve_lem t ip user now has_ip has_user) ∙ h in
      let zero : d.1 ≡ 0 = cc in
      let first : d.0 ≡ t' = cc in
      sym first
      ∙ decide_slot-held (arrived t ip user now e u) ip user (seen_ip e now) (seen_user u now) now
          zero

  held-flights :
      (a b : String)
      → ip_flight t ip < u32_max
      → user_flight t user < u32_max
      → (ip_flight (release (held t ip user now e u) ip user) a ≡ ip_flight t a)
        × (user_flight (release (held t ip user now e u) ip user) b ≡ user_flight t b)
  unfolding release seen_ip seen_user hold_ip hold_user give_ip give_user
  held-flights a b fi fu = (
    figure-restored (λ d. d.in_flight) ip a give_ip _ _ t.ip
        (omega (arith, ip_entry-flight t ip e has_ip)),
    figure-restored (λ d. d.in_flight) user b give_user _ _ t.user
        (omega (arith, user_entry-flight t user u has_user)),
  )

  held-check :
      (a b : String) (later : ℕ)
      → check (release (held t ip user now e u) ip user) a b later ≡ check t a b later
  unfolding check release seen_ip seen_user hold_ip hold_user give_ip give_user
  held-check a b later =
      ap₂ max
        (figure-restored (ip_ban later) ip a give_ip _ _ t.ip (ip_entry-ban t ip e later has_ip))
        (figure-restored (user_ban later) user b give_user _ _ t.user
          (user_entry-ban t user u later has_user))

-- On a valid tracker with fewer than 2^32 - 1 flights, a granted slot that is released leaves no trace: every client and user has the flights and the
-- bans, at any time, that it had before.
pub release-reserve :
    (most : ℕ) (t t' : LoginThrottle) (ip user : String) (now : ℕ)
    → IsValid most t
    → ip_flight t ip < u32_max
    → user_flight t user < u32_max
    → reserve t ip user now ≡ some (t', 0)
    → (a b : String)
    → (ip_flight (release t' ip user) a ≡ ip_flight t a)
      × (user_flight (release t' ip user) b ≡ user_flight t b)
      × ((later : ℕ) → check (release t' ip user) a b later ≡ check t a b later)
release-reserve most t t' ip user now v fi fu h a b =
    let (e, has_ip, _) = ip_entry-some most t v ip in
    let (u, has_user, _) = user_entry-some most t v user in
    let flights = held-flights t ip user now e u has_ip has_user a b fi fu in
    rw (granted t ip user now e u has_ip has_user t' h)
      (flights.0, flights.1, held-check t ip user now e u has_ip has_user a b)

flight-enforce_caps :
    (most : ℕ) (t : LoginThrottle) (now : ℕ) (a b : String)
    → IsValid most t
    → (ip_flight (enforce_caps t now) a ≡ ip_flight t a)
      × (user_flight (enforce_caps t now) b ≡ user_flight t b)
unfolding enforce_caps
flight-enforce_caps most t now a b v = (
  map_or-evict (λ e. e.in_flight) (ip_evictable now) ip_seen (length t.ip) max_ip_entries t.ip a
      v.ip_keys (λ e found gone. ground arith),
  map_or-evict (λ e. e.in_flight) (user_evictable now) user_seen (length t.user) max_user_entries
      t.user b v.user_keys (λ e found gone. ground arith),
)

flight-failed :
    (t : LoginThrottle) (ip user : String) (now : ℕ) (e : IpEntry) (u : ThrottleEntry)
    (a b : String)
    → ip_entry t ip ≡ some e
    → user_entry t user ≡ some u
    → (ip_flight (failed t ip user now e u) a ≡ ip_flight t a)
      × (user_flight (failed t ip user now e u) b ≡ user_flight t b)
unfolding fail_ip fail_user
flight-failed t ip user now e u a b he hu = (
  simp get-put (ground (arith, eq_iff ip a, ip_entry-flight t ip e he)),
  simp get-put (ground (arith, eq_iff user b, user_entry-flight t user u hu)),
)

-- On a valid tracker, with the bans within the clock's range, recording a failure gives back no slot: every client and user has the slots that it had, so the
-- caller releases its own besides.
pub record_failure_flights :
    (most : ℕ) (t t' : LoginThrottle) (ip user : String) (now ban : ℕ)
    → IsValid most t
    → now + most ≤ u64_max
    → record_failure t ip user now ≡ some (t', ban)
    → (a b : String) → (ip_flight t' a ≡ ip_flight t a) × (user_flight t' b ≡ user_flight t b)
record_failure_flights most t t' ip user now ban v fits h a b =
    let (e, has_ip, eok) = ip_entry-some most t v ip in
    let (u, has_user, uok) = user_entry-some most t v user in
    let after = failed t ip user now e u in
    let valid : IsValid most after =
      put_both-IsValid most t v ip user _ _ (fail_ip-IpOk most e now fits eok)
        (fail_user-UserOk most u now fits uok) in
    let same = sym (record_failure_lem t ip user now has_ip has_user) ∙ h in
    let first : enforce_caps after now ≡ t' = cc in
    let capped = flight-enforce_caps most after now a b valid in
    let written = flight-failed t ip user now e u a b has_ip has_user in
    rw (← first) (capped.0 ∙ written.0, capped.1 ∙ written.1)
