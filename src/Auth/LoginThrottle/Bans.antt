-- ===== src/Auth/LoginThrottle/Bans.antt =====
-- Bans as a client meets them: `check` against what eviction drops and what a failure reports.
use text.Mathlib.TextPositions.{eq_refl}
use picasu.Prelude.{ℕ, ◌+◌, ◌≤◌, ◌≡◌, max, ap₂, ◌∙◌, String, some, arith, u64_max, length}
use picasu.Assoc.{retain, get-put}
use picasu.Assoc.Evict.{map_or-evict, map_or-retain}
use picasu.Auth.RateLimit
use picasu.Auth.RateLimit.Ban.{ban_remaining-record_failure}
use picasu.Auth.LoginThrottle.State.{IpEntry, ThrottleEntry, LoginThrottle}
use picasu.Auth.LoginThrottle.Slots.{check, ip_ban, user_ban}
use picasu.Auth.LoginThrottle.Outcome.{
  sweep, record_failure, enforce_caps, fail_ip, fail_user, ip_evictable, user_evictable, ip_seen,
  user_seen, max_ip_entries, max_user_entries, ip_lives, user_lives,
}
use picasu.Auth.LoginThrottle.Invariant.{
  IsValid, IpOk, UserOk, ip_entry-some, user_entry-some, fail_ip-IpOk, fail_user-UserOk,
}
use picasu.Auth.LoginThrottle.Steps.{failed, record_failure_lem, put_both-IsValid, retain-IsValid}

-- What may go has no ban at `now` or later.
ip_ban-over :
    (most : ℕ) (e : IpEntry) (later : ℕ) → IpOk most e → e.banned_until ≤ later → ip_ban later e ≡ 0
unfolding ip_ban RateLimit.ban_remaining
ip_ban-over most e later ok h = omega arith

user_ban-over :
    (most : ℕ) (e : ThrottleEntry) (later : ℕ)
    → UserOk most e
    → e.banned_until ≤ later
    → user_ban later e ≡ 0
unfolding user_ban RateLimit.ban_remaining
user_ban-over most e later ok h = omega arith

pub check-enforce_caps :
    (most : ℕ) (t : LoginThrottle) (ip user : String) (now later : ℕ)
    → IsValid most t
    → now ≤ later
    → check (enforce_caps t now) ip user later ≡ check t ip user later
unfolding check enforce_caps
check-enforce_caps most t ip user now later v h =
    ap₂ max
      (map_or-evict (ip_ban later) (ip_evictable now) ip_seen (length t.ip) max_ip_entries t.ip ip
        v.ip_keys (λ e found gone. ip_ban-over most e later (v.ip_ok ip e found) (ground arith)))
      (map_or-evict (user_ban later) (user_evictable now) user_seen (length t.user) max_user_entries
        t.user user v.user_keys
        (λ e found gone. user_ban-over most e later (v.user_ok user e found) (ground arith)))

check-retain :
    (most : ℕ) (t : LoginThrottle) (ip user : String) (now later : ℕ)
    → IsValid most t
    → now ≤ later
    → check
        (record t {
          ip = retain (ip_lives t.longest_window now) t.ip;
          user = retain (user_lives t.longest_window now) t.user;
        })
        ip
        user
        later
      ≡ check t ip user later
unfolding check
check-retain most t ip user now later v h =
    ap₂ max
      (map_or-retain (ip_ban later) (ip_lives t.longest_window now) t.ip ip v.ip_keys
        (λ e found gone. ip_ban-over most e later (v.ip_ok ip e found) (ground arith)))
      (map_or-retain (user_ban later) (user_lives t.longest_window now) t.user user v.user_keys
        (λ e found gone. user_ban-over most e later (v.user_ok user e found) (ground arith)))

-- A sweep of a valid tracker never clears a ban: for every client and user, now and at any later time, `check` answers
-- as if the sweep had not run, although entries were reaped and evicted.
pub check-sweep :
    (most : ℕ) (t : LoginThrottle) (ip user : String) (now later : ℕ)
    → IsValid most t
    → now ≤ later
    → check (sweep t now) ip user later ≡ check t ip user later
unfolding sweep
check-sweep most t ip user now later v h =
    check-enforce_caps most _ ip user now later (retain-IsValid most t v _ _) h
    ∙ check-retain most t ip user now later v h

fail_ip-ban :
    (most : ℕ) (e : IpEntry) (now : ℕ)
    → now + most ≤ u64_max
    → IpOk most e
    → ip_ban now (fail_ip e now).0 ≡ (fail_ip e now).1
unfolding ip_ban fail_ip
fail_ip-ban most e now fits ok =
    ap₂ max (ban_remaining-record_failure e.short most now ok.0 fits)
      (ban_remaining-record_failure e.long most now ok.1 fits)

fail_user-ban :
    (most : ℕ) (e : ThrottleEntry) (now : ℕ)
    → now + most ≤ u64_max
    → UserOk most e
    → user_ban now (fail_user e now).0 ≡ (fail_user e now).1
unfolding user_ban fail_user
fail_user-ban most e now fits ok = ban_remaining-record_failure e.long most now ok.0 fits

check-failed :
    (most : ℕ) (t : LoginThrottle) (ip user : String) (now : ℕ) (e : IpEntry) (u : ThrottleEntry)
    → now + most ≤ u64_max
    → IpOk most e
    → UserOk most u
    → check (failed t ip user now e u) ip user now ≡ max (fail_ip e now).1 (fail_user u now).1
unfolding check
check-failed most t ip user now e u fits eok uok =
    simp (get-put, eq_refl)
      (ap₂ max (fail_ip-ban most e now fits eok) (fail_user-ban most u now fits uok))

-- A recorded failure returns on a valid tracker (with the bans within the clock's range), and the ban that it reports is the ban that `check`
-- then finds for the same client and user: the eviction that follows does not take it away.
pub check-record_failure :
    (most : ℕ) (t : LoginThrottle) (ip user : String) (now : ℕ)
    → IsValid most t
    → now + most ≤ u64_max
    → (t' : LoginThrottle) × (ban : ℕ) × (record_failure t ip user now ≡ some (t', ban))
      × (check t' ip user now ≡ ban)
check-record_failure most t ip user now v fits =
    let (e, has_ip, eok) = ip_entry-some most t v ip in
    let (u, has_user, uok) = user_entry-some most t v user in
    let after = failed t ip user now e u in
    let valid =
      put_both-IsValid most t v ip user _ _ (fail_ip-IpOk most e now fits eok)
        (fail_user-UserOk most u now fits uok) in
    (
      enforce_caps after now,
      max (fail_ip e now).1 (fail_user u now).1,
      record_failure_lem t ip user now has_ip has_user,
      check-enforce_caps most after ip user now now valid (omega arith)
          ∙ check-failed most t ip user now e u fits eok uok,
    )
