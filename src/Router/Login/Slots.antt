-- ===== src/Router/Login/Slots.antt =====
-- backend/src/auth/login_throttle.rs, as the sign-in uses it: what each visit does to the slots in
-- the login tracker.
use text.Mathlib.Text.{◌==◌}
use text.Mathlib.TextEquality.{eq_iff}
use picasu.Prelude.{
  ℕ, ◌⊎◌, ◌+◌, ◌≤◌, ◌≡◌, refl, sym, ◌∙◌, String, some, arith, inl, inr, if◌then◌else◌, u64_max,
  length, saturating_sub, ltb,
}
use picasu.Assoc.{retain, get-put, get-update, get-remove, get-retain}
use picasu.Assoc.Evict.{get-evict-or-none}
use picasu.Auth.LoginThrottle.State.{IpEntry, ThrottleEntry, LoginThrottle}
use picasu.Auth.LoginThrottle.Slots.{
  reserve, release, decide_slot, ip_entry, user_entry, seen_ip, seen_user, hold_ip, hold_user,
  give_ip, give_user,
}
use picasu.Auth.LoginThrottle.Outcome.{
  record_success, sweep, enforce_caps, clear_ip, ip_evictable, ip_seen, user_evictable, user_seen,
  max_ip_entries, max_user_entries, ip_lives, user_lives,
}
use picasu.Auth.LoginThrottle.Invariant.{IsValid, ip_entry-some, user_entry-some}
use picasu.Auth.LoginThrottle.Steps.{reserve_lem, arrived, step, step-IsValid, reserves}
use picasu.Auth.LoginThrottle.Release.{ip_flight, user_flight, ip_entry-flight, user_entry-flight}
use picasu.Auth.Users.{
  ErrorKind, auth, not_found, permission_denied, invalid_input, internal, conflict, database, io,
  serialization, read_only_mode, rate_limited, err,
}
use picasu.Router.Login.{settle, failed}

-- A figure at most 1 larger at one key.
abbrev pub bump : String → String → ℕ
bump k j = if k == j then 1 else 0

abbrev pub drop_one : String → String → ℕ → ℕ
drop_one k j n = if k == j then saturating_sub n 1 else n

module _ (t : LoginThrottle) (ip user : String) (a b : String) where
  pub flights-release :
      (ip_flight (release t ip user) a ≡ drop_one ip a (ip_flight t a))
      × (user_flight (release t ip user) b ≡ drop_one user b (user_flight t b))
  unfolding release give_ip give_user
  flights-release = (
    ground (arith, get-update ip a give_ip t.ip, eq_iff ip a),
    ground (arith, get-update user b give_user t.user, eq_iff user b),
  )

  pub flights-success :
      (now : ℕ)
      → (ip_flight (record_success t ip user now) a ≡ drop_one ip a (ip_flight t a))
        × (user_flight (record_success t ip user now) b ≤ drop_one user b (user_flight t b))
  unfolding record_success clear_ip
  flights-success now = (
    ground (arith, get-update ip a (clear_ip now) t.ip, eq_iff ip a),
    ground (arith, get-remove user b t.user, eq_iff user b),
  )

module _ (t : LoginThrottle) (now : ℕ) (a b : String) where
  flights-enforce_caps :
      (ip_flight (enforce_caps t now) a ≤ ip_flight t a)
      × (user_flight (enforce_caps t now) b ≤ user_flight t b)
  unfolding enforce_caps
  flights-enforce_caps = (
    ground
        (arith, get-evict-or-none (ip_evictable now) ip_seen (length t.ip) max_ip_entries t.ip a),
    ground (
      arith,
      get-evict-or-none (user_evictable now) user_seen (length t.user) max_user_entries t.user b,
    ),
  )

pub flights-sweep :
    (most : ℕ) (t : LoginThrottle) (now : ℕ) (a b : String)
    → IsValid most t
    → (ip_flight (sweep t now) a ≤ ip_flight t a) × (user_flight (sweep t now) b ≤ user_flight t b)
unfolding sweep
flights-sweep most t now a b v =
    let kept =
      flights-enforce_caps
        (record t {
          ip = retain (ip_lives t.longest_window now) t.ip;
          user = retain (user_lives t.longest_window now) t.user;
        })
        now a b in
    (
      ground (arith, kept.0, get-retain (ip_lives t.longest_window now) a t.ip v.ip_keys),
      ground (arith, kept.1, get-retain (user_lives t.longest_window now) b t.user v.user_keys),
    )

-- A slot that is granted is one for the client and one for the user.
module _ (t : LoginThrottle) (ip user : String) (now : ℕ) (e : IpEntry) (u : ThrottleEntry)
    (has_ip : ip_entry t ip ≡ some e) (has_user : user_entry t user ≡ some u) (a b : String) where
  flights-arrived :
      (ip_flight (arrived t ip user now e u) a ≡ ip_flight t a)
      × (user_flight (arrived t ip user now e u) b ≡ user_flight t b)
  unfolding seen_ip seen_user
  flights-arrived = (
    ground (arith, get-put ip a (seen_ip e now) t.ip, eq_iff ip a, ip_entry-flight t ip e has_ip),
    ground (
      arith,
      get-put user b (seen_user u now) t.user,
      eq_iff user b,
      user_entry-flight t user u has_user,
    ),
  )

-- What a decision adds to the slots at a key.
abbrev pub added : ℕ → String → String → ℕ
added ban k j = if ltb 0 ban then 0 else bump k j

flights-decide_slot :
    (t : LoginThrottle) (ip user : String) (now : ℕ) (e : IpEntry) (u : ThrottleEntry)
    (a b : String)
    → ip_flight t ip ≡ e.in_flight
    → user_flight t user ≡ u.in_flight
    → (ip_flight (decide_slot t ip user now e u).0 a
        ≤ ip_flight t a + added (decide_slot t ip user now e u).1 ip a)
      × (user_flight (decide_slot t ip user now e u).0 b
          ≤ user_flight t b + added (decide_slot t ip user now e u).1 user b)
unfolding decide_slot hold_ip hold_user
flights-decide_slot t ip user now e u a b at_ip at_user = (
  ground (arith, get-put ip a (hold_ip e) t.ip, eq_iff ip a),
  ground (arith, get-put user b (hold_user u) t.user, eq_iff user b),
)

module _ (most : ℕ) (t : LoginThrottle) (v : IsValid most t) (ip user : String) (now ban : ℕ)
    (t' : LoginThrottle) where
  pub reserved :
      now + most ≤ u64_max
      → reserve t ip user now ≡ some (t', ban)
      → IsValid most t'
        × ((a b : String)
            → (ip_flight t' a ≤ ip_flight t a + added ban ip a)
              × (user_flight t' b ≤ user_flight t b + added ban user b))
  unfolding step seen_ip seen_user
  reserved fits h =
      let (e, has_ip, _) = ip_entry-some most t v ip in
      let (u, has_user, _) = user_entry-some most t v user in
      let d =
        decide_slot (arrived t ip user now e u) ip user now (seen_ip e now) (seen_user u now) in
      let same : some d ≡ some (t', ban) = sym (reserve_lem t ip user now has_ip has_user) ∙ h in
      let (t'', stepped, valid) = step-IsValid most t (reserves ip user now) v fits in
      let first : d.0 ≡ t' = cc in
      let second : d.1 ≡ ban = cc in
      let here : t'' ≡ t' = ground arith in
      (
        rw (sym here) valid,
        λ a b.
            let came = flights-arrived t ip user now e u has_ip has_user in
            let decided =
              flights-decide_slot (arrived t ip user now e u) ip user now (seen_ip e now)
                (seen_user u now) a b ((came ip user).0 ∙ ip_entry-flight t ip e has_ip)
                ((came ip user).1 ∙ user_entry-flight t user u has_user) in
            rw (sym first, sym second)
              (omega (arith, decided.0, came a b), omega (arith, decided.1, came a b)),
      )

-- An error other than a wrong credential gives the slot back and records nothing.
pub settle_other :
    (ip user : String) (now : ℕ) (t : LoginThrottle) (e : ErrorKind)
    → (e ≡ auth) ⊎ (settle ip user now t (err e) ≡ some (release t ip user, failed e))
unfolding settle
settle_other ip user now t auth = inl refl
settle_other ip user now t not_found = inr refl
settle_other ip user now t permission_denied = inr refl
settle_other ip user now t invalid_input = inr refl
settle_other ip user now t internal = inr refl
settle_other ip user now t conflict = inr refl
settle_other ip user now t database = inr refl
settle_other ip user now t io = inr refl
settle_other ip user now t serialization = inr refl
settle_other ip user now t read_only_mode = inr refl
settle_other ip user now t rate_limited = inr refl
