-- ===== src/Router/Login/Floor.antt =====
-- backend/src/router/post/users_authenticate.rs: many sign-ins at once, and the slots that they hold in
-- the login tracker.
use picasu.Prelude.{ℕ, ◌+◌, ◌≤◌, ◌<◌, ◌≡◌, String, some, List, [], ◌∷◌, ◌++◌, u64_max}
use picasu.Auth.Users.{Result}
use picasu.Auth.LoginThrottle.State.{BucketCfg, LoginThrottle, new, created}
use picasu.Router.Sessions.{ClaimsSession}
use picasu.Router.Login.{UserSummary, Desk, admit, Answer, settle}
use picasu.Router.Login.Slots.{bump}

-- A sign-in's client address and user.
abbrev pub Attempt : Type 0
Attempt = String × String

-- `verifying` are the sign-ins whose password is being checked. `lost` (a ghost) are those whose blocking
-- task has died: the handler returns the join error without another visit to the tracker.
pub record Floor : Type 0 where
  pub desk : Desk
  pub verifying : List Attempt
  pub lost : List Attempt

-- The caps of the configured bans are at most `most`, and the clock leaves room for a ban.
pub data Step (most : ℕ) : Floor → Floor → Type 0 where
  enter :
      (f : Floor) (ip user : String) (now : ℕ) (d : Desk)
      → now + most ≤ u64_max
      → admit ip user now f.desk ≡ some (d, 0)
      → Step most f (record f { desk = d; verifying = (ip, user) ∷ f.verifying })
  turn_away :
      (f : Floor) (ip user : String) (now ban : ℕ) (d : Desk)
      → now + most ≤ u64_max
      → 0 < ban
      → admit ip user now f.desk ≡ some (d, ban)
      → Step most f (record f { desk = d })
  leave :
      (f : Floor) (before after : List Attempt) (ip user : String) (now : ℕ)
      (outcome : Result (ClaimsSession × UserSummary)) (t : LoginThrottle) (answer : Answer)
      → now + most ≤ u64_max
      → f.verifying ≡ before ++ (ip, user) ∷ after
      → settle ip user now f.desk.tracker outcome ≡ some (t, answer)
      → Step most f (record f { desk = record f.desk { tracker = t }; verifying = before ++ after })
  die :
      (f : Floor) (before after : List Attempt) (a : Attempt)
      → f.verifying ≡ before ++ a ∷ after
      → Step most f (record f { verifying = before ++ after; lost = a ∷ f.lost })
  -- `with_login_throttle` finds other schedules in the configuration.
  rebuild :
      (f : Floor) (short long user : BucketCfg) (t : LoginThrottle)
      → short.max_ban_secs ≤ most
      → long.max_ban_secs ≤ most
      → user.max_ban_secs ≤ most
      → new short long user ≡ created t
      → Step most f (record f { desk = record f.desk { tracker = t } })

pub data Run (most : ℕ) (f : Floor) : Floor → Type 0 where
  here : Run most f f
  next : {g h : Floor} → Run most f g → Step most g h → Run most f h

unfoldable pub by_ip : String → List Attempt → ℕ
by_ip k [] = 0
by_ip k (a ∷ rest) = bump a.0 k + by_ip k rest

unfoldable pub by_user : String → List Attempt → ℕ
by_user k [] = 0
by_user k (a ∷ rest) = bump a.1 k + by_user k rest
