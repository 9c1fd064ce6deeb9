-- ===== src/Auth/LoginThrottle/Steps.antt =====
-- Every call of the tracker, and histories of calls.
use picasu.Prelude.{
  ℕ, ◌+◌, ◌≤◌, ◌≡◌, refl, String, Bool, Option, none, some, List, [], ◌∷◌, arith, u64_max,
  Option-cases, inl, inr, max, All, ltb, Bool-cases,
}
use picasu.Assoc.{
  get, put, get-remove, get-retain, put-Unique, remove-Unique, retain-Unique, remove, retain,
  update,
}
use picasu.Auth.LoginThrottle.State.{IpEntry, ThrottleEntry, LoginThrottle}
use picasu.Auth.LoginThrottle.Slots.{
  ip_entry, user_entry, reserve, release, decide_slot, seen_ip, seen_user, hold_ip, hold_user,
  give_ip, give_user, live_ban, crowded_ban,
}
use picasu.Auth.LoginThrottle.Outcome.{
  record_failure, record_success, sweep, enforce_caps, fail_ip, fail_user, clear_ip,
}
use picasu.Auth.LoginThrottle.Invariant.{
  IsValid, IpOk, UserOk, ip_entry-some, user_entry-some, maps-IsValid, put-IpOk, put-UserOk,
  enforce_caps-IsValid, fail_ip-IpOk, fail_user-UserOk, clear_ip-IpOk,
}

-- The client address, the user name and the time, where the call takes them.
pub data Call : Type 0 where
  reserves fails succeeds : String → String → ℕ → Call
  releases : String → String → Call
  sweeps : ℕ → Call

abbrev state : Option (LoginThrottle × ℕ) → Option LoginThrottle
state none = none
state (some (t, ban)) = some t

unfoldable pub step : LoginThrottle → Call → Option LoginThrottle
step t (reserves ip user now) = state (reserve t ip user now)
step t (fails ip user now) = state (record_failure t ip user now)
step t (succeeds ip user now) = some (record_success t ip user now)
step t (releases ip user) = some (release t ip user)
step t (sweeps now) = some (sweep t now)

-- Times leave room for a ban.
abbrev pub InTime : ℕ → Call → Type 0
InTime most (reserves ip user now) = now + most ≤ u64_max
InTime most (fails ip user now) = now + most ≤ u64_max
InTime most (succeeds ip user now) = now + most ≤ u64_max
InTime most (releases ip user) = Unit
InTime most (sweeps now) = now + most ≤ u64_max

module _ (most : ℕ) (t : LoginThrottle) (v : IsValid most t) where
  pub put_both-IsValid :
      (ip user : String) (e : IpEntry) (u : ThrottleEntry)
      → IpOk most e
      → UserOk most u
      → IsValid most (record t { ip = put ip e t.ip; user = put user u t.user })
  put_both-IsValid ip user e u eok uok =
      maps-IsValid most t v _ _ (put-Unique ip e t.ip v.ip_keys)
        (put-Unique user u t.user v.user_keys) (put-IpOk most t v ip e eok)
        (put-UserOk most t v user u uok)

  update_ip-IsValid :
      (ip : String) (f : IpEntry → IpEntry)
      → ((e : IpEntry) → IpOk most e → IpOk most (f e))
      → IsValid most (record t { ip = update ip f t.ip })
  unfolding update
  update_ip-IsValid ip f keeps = elim (Option-cases (get ip t.ip)) [
    | inl e ↦ rw (e, update) v
    | inr (a, e) ↦
        rw (e, update)
          (maps-IsValid most t v _ _ (put-Unique ip (f a) t.ip v.ip_keys) v.user_keys
            (put-IpOk most t v ip (f a) (keeps a (v.ip_ok ip a e))) v.user_ok)
  ]

  update_user-IsValid :
      (user : String) (f : ThrottleEntry → ThrottleEntry)
      → ((e : ThrottleEntry) → UserOk most e → UserOk most (f e))
      → IsValid most (record t { user = update user f t.user })
  unfolding update
  update_user-IsValid user f keeps = elim (Option-cases (get user t.user)) [
    | inl e ↦ rw (e, update) v
    | inr (a, e) ↦
        rw (e, update)
          (maps-IsValid most t v _ _ v.ip_keys (put-Unique user (f a) t.user v.user_keys) v.ip_ok
            (put-UserOk most t v user (f a) (keeps a (v.user_ok user a e))))
  ]

  remove_user-IsValid : (user : String) → IsValid most (record t { user = remove user t.user })
  remove_user-IsValid user =
      maps-IsValid most t v _ _ v.ip_keys (remove-Unique user t.user v.user_keys) v.ip_ok
        (λ k e h. ground (arith, get-remove user k t.user, v.user_ok k e))

  pub retain-IsValid :
      (p : IpEntry → Bool) (q : ThrottleEntry → Bool)
      → IsValid most (record t { ip = retain p t.ip; user = retain q t.user })
  retain-IsValid p q =
      maps-IsValid most t v _ _ (retain-Unique p t.ip v.ip_keys)
        (retain-Unique q t.user v.user_keys)
        (λ k e h. ground (arith, get-retain p k t.ip v.ip_keys, v.ip_ok k e))
        (λ k e h. ground (arith, get-retain q k t.user v.user_keys, v.user_ok k e))

decide_slot-IsValid :
    (most : ℕ) (t : LoginThrottle)
    → IsValid most t
    → (ip user : String) (now : ℕ) (e : IpEntry) (u : ThrottleEntry) → IpOk most e
    → UserOk most u
    → IsValid most (decide_slot t ip user now e u).0
unfolding decide_slot
decide_slot-IsValid most t v ip user now e u eok uok =
    elim (Bool-cases (ltb 0 (live_ban e u now))) [
      | inl b ↦ rw (b, decide_slot) v
      | inr c ↦ elim (Bool-cases (ltb 0 (crowded_ban e u now))) [
        | inl d ↦ rw (c, d, decide_slot) v
        | inr d ↦
            rw (c, d, decide_slot)
              (put_both-IsValid most t v ip user (hold_ip e) (hold_user u) eok uok)
      ]
    ]

-- The state in which `reserve` decides.
abbrev pub arrived : LoginThrottle → String → String → ℕ → IpEntry → ThrottleEntry → LoginThrottle
arrived t ip user now e u = record t {
  ip = put ip (seen_ip e now) t.ip;
  user = put user (seen_user u now) t.user;
}

abbrev pub failed : LoginThrottle → String → String → ℕ → IpEntry → ThrottleEntry → LoginThrottle
failed t ip user now e u = record t {
  ip = put ip (fail_ip e now).0 t.ip;
  user = put user (fail_user u now).0 t.user;
}

module _ (t : LoginThrottle) (ip user : String) (now : ℕ) {e : IpEntry} {u : ThrottleEntry}
    (has_ip : ip_entry t ip ≡ some e) (has_user : user_entry t user ≡ some u) where
  pub reserve_lem :
      reserve t ip user now
      ≡ some (decide_slot (arrived t ip user now e u) ip user now (seen_ip e now) (seen_user u now))
  unfolding reserve
  reserve_lem = rw (has_ip, has_user, reserve)

  pub record_failure_lem :
      record_failure t ip user now
      ≡ some
          (enforce_caps (failed t ip user now e u) now, max (fail_ip e now).1 (fail_user u now).1)
  unfolding record_failure
  record_failure_lem = rw (has_ip, has_user, record_failure)

module _ (most : ℕ) (t : LoginThrottle) (v : IsValid most t) where
  record_success-IsValid :
      (ip user : String) (now : ℕ) → IsValid most (record_success t ip user now)
  unfolding record_success
  record_success-IsValid ip user now =
      remove_user-IsValid most (record t { ip = update ip (clear_ip now) t.ip })
        (update_ip-IsValid most t v ip (clear_ip now) (λ e ok. clear_ip-IpOk most e now ok)) user

  release-IsValid : (ip user : String) → IsValid most (release t ip user)
  unfolding release give_ip give_user
  release-IsValid ip user =
      update_user-IsValid most (record t { ip = update ip give_ip t.ip })
        (update_ip-IsValid most t v ip give_ip (λ e ok. ok)) user give_user (λ e ok. ok)

  sweep-IsValid : (now : ℕ) → IsValid most (sweep t now)
  unfolding sweep
  sweep-IsValid now = enforce_caps-IsValid most _ (retain-IsValid most t v _ _) now

-- From a valid tracker every call returns, without a panic, and leaves a valid tracker.
pub step-IsValid :
    (most : ℕ) (t : LoginThrottle) (c : Call)
    → IsValid most t
    → InTime most c
    → (t' : LoginThrottle) × (step t c ≡ some t') × IsValid most t'
unfolding step seen_ip seen_user
step-IsValid most t (reserves ip user now) v h =
    let (e, has_ip, eok) = ip_entry-some most t v ip in
    let (u, has_user, uok) = user_entry-some most t v user in
    let at = put_both-IsValid most t v ip user (seen_ip e now) (seen_user u now) eok uok in
    (
      (decide_slot (arrived t ip user now e u) ip user now (seen_ip e now) (seen_user u now)).0,
      rw (reserve_lem t ip user now has_ip has_user),
      decide_slot-IsValid most _ at ip user now _ _ eok uok,
    )
step-IsValid most t (fails ip user now) v h =
    let (e, has_ip, eok) = ip_entry-some most t v ip in
    let (u, has_user, uok) = user_entry-some most t v user in
    (
      enforce_caps (failed t ip user now e u) now,
      rw (record_failure_lem t ip user now has_ip has_user),
      enforce_caps-IsValid most _
          (put_both-IsValid most t v ip user _ _ (fail_ip-IpOk most e now h eok)
            (fail_user-UserOk most u now h uok))
          now,
    )
step-IsValid most t (succeeds ip user now) v h =
    (record_success t ip user now, refl, record_success-IsValid most t v ip user now)
step-IsValid most t (releases ip user) v h =
    (release t ip user, refl, release-IsValid most t v ip user)
step-IsValid most t (sweeps now) v h = (sweep t now, refl, sweep-IsValid most t v now)

-- A history of calls.
unfoldable pub run : LoginThrottle → List Call → Option LoginThrottle
run t [] = some t
run t (c ∷ cs) = elim (step t c) [ none ↦ none | some t' ↦ run t' cs ]

-- No history of calls from a valid tracker, each with its bans within the clock's range, panics, and each ends in a valid tracker.
pub run-IsValid :
    (most : ℕ) (t : LoginThrottle) (cs : List Call)
    → IsValid most t
    → All (InTime most) cs
    → (t' : LoginThrottle) × (run t cs ≡ some t') × IsValid most t'
unfolding run
run-IsValid most t [] v h = (t, refl, v)
run-IsValid most t (c ∷ cs) v h =
    let (t', stepped, v') = step-IsValid most t c v h.0 in
    let (t'', ran, v'') = run-IsValid most t' cs v' h.1 in (t'', rw (stepped, run) ran, v'')
