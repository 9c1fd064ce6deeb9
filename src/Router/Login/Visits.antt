-- ===== src/Router/Login/Visits.antt =====
-- backend/src/router/post/users_authenticate.rs: what each visit of a sign-in does to a valid tracker.
use mathlib.Core.Path.{subst}
use picasu.Prelude.{
  ℕ, ◌+◌, ◌≤◌, ◌≡◌, sym, String, some, arith, inl, inr, Bool-cases, u64_max, leb, saturating_sub,
  Option-cases,
}
use picasu.Auth.Users.{auth, Result, ok, err}
use picasu.Auth.LoginThrottle.State.{LoginThrottle}
use picasu.Auth.LoginThrottle.Slots.{reserve, release}
use picasu.Auth.LoginThrottle.Outcome.{record_failure, record_success, sweep}
use picasu.Auth.LoginThrottle.Invariant.{IsValid}
use picasu.Auth.LoginThrottle.Steps.{step, step-IsValid, fails, succeeds, releases, sweeps}
use picasu.Auth.LoginThrottle.Release.{ip_flight, user_flight, record_failure_flights}
use picasu.Router.Sessions.{ClaimsSession}
use picasu.Router.Login.{UserSummary, Desk, reap, admit, Answer, settle}
use picasu.Router.Login.Slots.{
  drop_one, added, flights-release, flights-success, flights-sweep, reserved, settle_other,
}

module _ (most : ℕ) (d : Desk) (v : IsValid most d.tracker) (now : ℕ)
    (fits : now + most ≤ u64_max) where
  reap-IsValid :
      IsValid most (reap now d).tracker
      × ((a b : String)
          → (ip_flight (reap now d).tracker a ≤ ip_flight d.tracker a)
            × (user_flight (reap now d).tracker b ≤ user_flight d.tracker b))
  unfolding reap step
  reap-IsValid = elim (Bool-cases (leb 60 (saturating_sub now d.last_sweep))) [
    | inr recent ↦ rw (recent, reap) (v, λ a b. (omega arith, omega arith))
    | inl due ↦
        let (t, swept, valid) = step-IsValid most d.tracker (sweeps now) v fits in
        let same : sweep d.tracker now ≡ t = ground arith in
        rw (due, reap) (rw same valid, λ a b. flights-sweep most d.tracker now a b v)
  ]

module _ (most : ℕ) (ip user : String) (now : ℕ) (fits : now + most ≤ u64_max) where
  pub admitted :
      (d d' : Desk) (ban : ℕ)
      → IsValid most d.tracker
      → admit ip user now d ≡ some (d', ban)
      → IsValid most d'.tracker
        × ((a b : String)
            → (ip_flight d'.tracker a ≤ ip_flight d.tracker a + added ban ip a)
              × (user_flight d'.tracker b ≤ user_flight d.tracker b + added ban user b))
  unfolding admit
  admitted d d' ban v h =
      let (swept, less) = reap-IsValid most d v now fits in
      elim (Option-cases (reserve (reap now d).tracker ip user now)) [
        | inl e ↦ absurd (ground arith)
        | inr ((t, ban'), e) ↦
            let tracker : t ≡ d'.tracker = ground arith in
            let same : ban' ≡ ban = ground arith in
            let (valid, held) =
              reserved most (reap now d).tracker swept ip user now ban' t fits e in
            (
              rw (sym tracker) valid,
              λ a b.
                  rw (sym tracker, sym same)
                    (omega (arith, held a b, less a b), omega (arith, held a b, less a b)),
            )
      ]

  -- The tracker after the second visit is valid and has a slot less for the client and the user.
  abbrev pub GivesBack : LoginThrottle → LoginThrottle → Type 0
  GivesBack t t' =
      IsValid most t'
      × ((a b : String)
          → (ip_flight t' a ≤ drop_one ip a (ip_flight t a))
            × (user_flight t' b ≤ drop_one user b (user_flight t b)))

  release-GivesBack : (t : LoginThrottle) → IsValid most t → GivesBack t (release t ip user)
  unfolding step
  release-GivesBack t v =
      let (t', released, valid) = step-IsValid most t (releases ip user) v tt in
      let same : release t ip user ≡ t' = ground arith in
      (
        rw same valid,
        λ a b. let r = flights-release t ip user a b in (omega (arith, r.0), omega (arith, r.1)),
      )

  success-GivesBack :
      (t : LoginThrottle) → IsValid most t → GivesBack t (record_success t ip user now)
  unfolding step
  success-GivesBack t v =
      let (t', succeeded, valid) = step-IsValid most t (succeeds ip user now) v fits in
      let same : record_success t ip user now ≡ t' = ground arith in
      (rw same valid, λ a b. let r = flights-success t ip user a b now in (omega (arith, r.0), r.1))

  failure-GivesBack :
      (t t' : LoginThrottle) (ban : ℕ)
      → IsValid most t
      → record_failure (release t ip user) ip user now ≡ some (t', ban)
      → GivesBack t t'
  unfolding step
  failure-GivesBack t t' ban v h =
      let (released, less) = release-GivesBack t v in
      let (t'', recorded, valid) =
        step-IsValid most (release t ip user) (fails ip user now) released fits in
      let same : t'' ≡ t' = ground arith in
      (
        rw (sym same) valid,
        λ a b.
            let kept =
              record_failure_flights most (release t ip user) t' ip user now ban released fits h a
                b in
            (omega (arith, kept.0, less a b), omega (arith, kept.1, less a b)),
      )

  pub settled :
      (t t' : LoginThrottle) (outcome : Result (ClaimsSession × UserSummary)) (answer : Answer)
      → IsValid most t
      → settle ip user now t outcome ≡ some (t', answer)
      → GivesBack t t'
  unfolding settle
  settled t t' (ok (claims, profile)) answer v h =
      let same : record_success t ip user now ≡ t' = ground arith in
      rw (sym same) (success-GivesBack t v)
  settled t t' (err e) answer v h = elim (settle_other ip user now t e) [
    | inr other ↦
        let same : release t ip user ≡ t' = ground arith in rw (sym same) (release-GivesBack t v)
    | inl credential ↦
        let g : settle ip user now t (err auth) ≡ some (t', answer) =
          subst (λ x. settle ip user now t (err x) ≡ some (t', answer)) credential h in
        elim (Option-cases (record_failure (release t ip user) ip user now)) [
          | inl e ↦ absurd (ground arith)
          | inr ((t'', ban), e) ↦
              let same : t'' ≡ t' = ground arith in rw (sym same) (failure-GivesBack t t'' ban v e)
        ]
  ]
