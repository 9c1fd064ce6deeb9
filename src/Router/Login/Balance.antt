-- ===== src/Router/Login/Balance.antt =====
-- backend/src/router/post/users_authenticate.rs: what the sign-ins under way account for in the login
-- tracker.
use picasu.Prelude.{ℕ, ◌+◌, ◌≤◌, ◌≡◌, refl, ap, ◌∙◌, String, List, [], ◌∷◌, ◌++◌, arith, u64_max}
use picasu.Assoc.{get}
use picasu.Auth.LoginThrottle.State.{BucketCfg, LoginThrottle, new, created}
use picasu.Auth.LoginThrottle.Invariant.{IsValid}
use picasu.Auth.LoginThrottle.Steps.{step}
use picasu.Auth.LoginThrottle.Release.{ip_flight, user_flight}
use picasu.Auth.LoginThrottle.Caps.{new_tracker_iff}
use picasu.Router.Login.Slots.{bump, drop_one}
use picasu.Router.Login.Floor.{
  Attempt, Floor, Step, enter, turn_away, leave, die, rebuild, Run, here, next, by_ip, by_user,
}
use picasu.Router.Login.Visits.{admitted, settled}

by_ip-middle :
    (k : String) (before after : List Attempt) (a : Attempt)
    → by_ip k (before ++ a ∷ after) ≡ bump a.0 k + by_ip k (before ++ after)
unfolding by_ip
by_ip-middle k [] after a = refl
by_ip-middle k (x ∷ before) after a = omega (arith, by_ip-middle k before after a)

by_user-middle :
    (k : String) (before after : List Attempt) (a : Attempt)
    → by_user k (before ++ a ∷ after) ≡ bump a.1 k + by_user k (before ++ after)
unfolding by_user
by_user-middle k [] after a = refl
by_user-middle k (x ∷ before) after a = omega (arith, by_user-middle k before after a)

-- The slots at each key are at most the attempts that account for them.
abbrev Within : LoginThrottle → List Attempt → List Attempt → Type 0
Within t verifying lost =
    (a b : String)
    → (ip_flight t a ≤ by_ip a verifying + by_ip a lost)
      × (user_flight t b ≤ by_user b verifying + by_user b lost)

abbrev IsSound : ℕ → Floor → Type 0
IsSound most f = IsValid most f.desk.tracker × Within f.desk.tracker f.verifying f.lost

created-empty :
    (short long user : BucketCfg) (t : LoginThrottle)
    → new short long user ≡ created t
    → (t.ip ≡ []) × (t.user ≡ [])
unfolding new
created-empty short long user t h = (ground arith, ground arith)

created-Within :
    (short long user : BucketCfg) (t : LoginThrottle) (verifying lost : List Attempt)
    → new short long user ≡ created t
    → Within t verifying lost
unfolding get
created-Within short long user t verifying lost h a b =
    let (no_ip, no_user) = created-empty short long user t h in
    (rw no_ip (omega arith), rw no_user (omega arith))

drop_one-bump : (k j : String) (n m : ℕ) → n ≤ bump k j + m → drop_one k j n ≤ m
drop_one-bump k j n m h = ground arith

Step-IsSound :
    (most : ℕ) {f g : Floor} → most ≤ u64_max → IsSound most f → Step most f g → IsSound most g
unfolding by_ip by_user
Step-IsSound most word s (enter f ip user now d fits h) =
    let (valid, more) = admitted most ip user now fits f.desk d 0 s.0 h in
    (valid, λ a b. (omega (arith, more a b, s.1 a b), omega (arith, more a b, s.1 a b)))
Step-IsSound most word s (turn_away f ip user now ban d fits positive h) =
    let (valid, more) = admitted most ip user now fits f.desk d ban s.0 h in
    (valid, λ a b. (ground (arith, more a b, s.1 a b), ground (arith, more a b, s.1 a b)))
Step-IsSound most word s (leave f before after ip user now outcome t answer fits there h) =
    let (valid, less) = settled most ip user now fits f.desk.tracker t outcome answer s.0 h in
    (
      valid,
      λ a b.
          let i : by_ip a f.verifying ≡ bump ip a + by_ip a (before ++ after) =
            ap (by_ip a) there ∙ by_ip-middle a before after (ip, user) in
          let u : by_user b f.verifying ≡ bump user b + by_user b (before ++ after) =
            ap (by_user b) there ∙ by_user-middle b before after (ip, user) in
          let rest_ip = by_ip a (before ++ after) + by_ip a f.lost in
          let rest_user = by_user b (before ++ after) + by_user b f.lost in
          (
            omega (
              arith,
              (less a b).0,
              drop_one-bump ip a (ip_flight f.desk.tracker a) rest_ip
                  (omega (arith, (s.1 a b).0, i)),
            ),
            omega (
              arith,
              (less a b).1,
              drop_one-bump user b (user_flight f.desk.tracker b) rest_user
                  (omega (arith, (s.1 a b).1, u)),
            ),
          ),
    )
Step-IsSound most word s (die f before after gone there) = (
  s.0,
  λ a b.
      let i : by_ip a f.verifying ≡ bump gone.0 a + by_ip a (before ++ after) =
        ap (by_ip a) there ∙ by_ip-middle a before after gone in
      let u : by_user b f.verifying ≡ bump gone.1 b + by_user b (before ++ after) =
        ap (by_user b) there ∙ by_user-middle b before after gone in
      (omega (arith, (s.1 a b).0, i), omega (arith, (s.1 a b).1, u)),
)
Step-IsSound most word s (rebuild f short long user t fs fl fu h) =
    let built = (new_tracker_iff most short long user word fs fl fu).0 t h in
    (built.0, created-Within short long user t f.verifying f.lost h)

Run-IsSound :
    (most : ℕ) {f g : Floor} → most ≤ u64_max → IsSound most f → Run most f g → IsSound most g
Run-IsSound most word s here = s
Run-IsSound most word s (next run step) = Step-IsSound most word (Run-IsSound most word s run) step

-- From a new tracker on, whatever sign-ins enter, succeed, fail or break off, in whatever order, a client
-- and a user hold at most as many slots as they have sign-ins under way or with a task that has died:
-- no slot leaks otherwise, and with none of these there is no slot left. (The caps of the bans are at
-- most `most`, and the clock leaves room for a ban.)
pub slots_accounted :
    (most : ℕ) (short long user : BucketCfg) (t : LoginThrottle) (last : ℕ) (g : Floor)
    → most ≤ u64_max
    → short.max_ban_secs ≤ most
    → long.max_ban_secs ≤ most
    → user.max_ban_secs ≤ most
    → new short long user ≡ created t
    → Run most
        (record { desk = record { tracker = t; last_sweep = last }; verifying = []; lost = [] })
        g
    → (a b : String)
    → (ip_flight g.desk.tracker a ≤ by_ip a g.verifying + by_ip a g.lost)
      × (user_flight g.desk.tracker b ≤ by_user b g.verifying + by_user b g.lost)
slots_accounted most short long user t last g word fs fl fu h run =
    let built = (new_tracker_iff most short long user word fs fl fu).0 t h in
    (Run-IsSound most word (built.0, created-Within short long user t [] [] h) run).1
