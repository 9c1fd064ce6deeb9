-- ===== src/Router/Sessions/Tests.antt =====
-- A server with two users and a session of the first.
use picasu.Prelude.{
  ◌≡◌, ◌≢◌, ◌↔◌, refl, Bool, true, false, Option, none, some, [], ◌∷◌, arith, if◌then◌else◌,
}
use picasu.Model.Text.{Text, text_eq}
use picasu.Model.Text.Table.{find}
use picasu.Model.Text.Trim.{trim, trim_start, trim_end, len}
use picasu.Auth.Users.{ok, UserRecord, Users, validate_user_id}
use picasu.Auth.UserStore.{
  count, delete_user, provision, set_password, set_admin, set_disabled, bump_ver,
}
use picasu.Auth.Revocations.{is_revoked, session_key}
use picasu.Auth.Revocations.Expiry.{revoke_each}
use picasu.Router.Sessions.{
  user, session, ClaimsSession, accepted, success, forbidden, is_empty, decode_typed, check_admin,
  is_admin, try_jwt_cookie_auth, try_jwt_cookie_user, guard_user, logout, read,
}
use picasu.Router.Sessions.Guards.{Presents, Lives, session_iff, guard_user_iff, admin_session_iff}
use picasu.Router.Sessions.Ends.{serve, writes_end_session, logout_ends_session, session_revives}

abbrev ann : Text
ann = 97 ∷ 110 ∷ 110 ∷ []

abbrev bob : Text
bob = 98 ∷ 111 ∷ 98 ∷ []

abbrev row : Bool → UserRecord
row admin = record {
  hash = none;
  admin = admin;
  home = none;
  ver = 0;
  disabled = false;
  shares_enabled = true;
}

abbrev two_users : Users
two_users = (ann, row true) ∷ (bob, row true) ∷ []

abbrev ann_claims : ClaimsSession
ann_claims = record { role = user ann true; exp = 500; typ = session; jti = 7 ∷ []; ver = 0 }

-- The only token that decodes.
abbrev token : Text
token = 1 ∷ []

abbrev decode : Text → Option ClaimsSession
decode t = if text_eq t token then some ann_claims else none

same_hash : Text → Text
same_hash t = t

session_iff_example :
    (try_jwt_cookie_user decode (serve two_users [] 100) (some token) ≡ accepted ann_claims) ↔ (
      (claims : ClaimsSession) × Presents decode (serve two_users [] 100) (some token) claims
      × Lives (serve two_users [] 100) claims claims.role ann_claims)
session_iff_example = session_iff decode (serve two_users [] 100) (some token) ann_claims

guard_user_iff_example :
    ((guard_user decode (serve two_users [] 100) (some token) ≡ success ann_claims)
      ↔ (try_jwt_cookie_user decode (serve two_users [] 100) (some token) ≡ accepted ann_claims))
    × ((guard_user decode (serve two_users [] 100) (some token) ≡ forbidden)
        ↔ (is_empty two_users ≡ true))
guard_user_iff_example = guard_user_iff decode (serve two_users [] 100) (some token) ann_claims

admin_session_iff_example :
    (try_jwt_cookie_auth decode (serve two_users [] 100) (some token) ≡ accepted ann_claims) ↔ (
      (try_jwt_cookie_user decode (serve two_users [] 100) (some token) ≡ accepted ann_claims)
      × (is_admin ann_claims ≡ true)
      × Presents decode (serve two_users [] 100) (some token) ann_claims)
admin_session_iff_example =
    admin_session_iff decode (serve two_users [] 100) (some token) ann_claims

accepted_now :
    try_jwt_cookie_auth decode (serve two_users [] 100) (some token) ≡ accepted ann_claims
unfolding try_jwt_cookie_auth is_empty decode_typed check_admin read find trim trim_start trim_end
    is_revoked
accepted_now = refl

found_ann : find (trim ann) two_users ≡ some (row true)
unfolding find trim trim_start trim_end
found_ann = refl

writes_end_session_example :
    (try_jwt_cookie_user decode
        (serve (set_password same_hash ann bob two_users).0 [] 100)
        (some token)
      ≢ accepted ann_claims)
    × ((set_admin ann false two_users).1 ≡ ok true
        → try_jwt_cookie_user decode (serve (set_admin ann false two_users).0 [] 100) (some token)
          ≢ accepted ann_claims)
    × ((set_disabled ann true two_users).1 ≡ ok true
        → try_jwt_cookie_user decode (serve (set_disabled ann true two_users).0 [] 100) (some token)
          ≢ accepted ann_claims)
    × (try_jwt_cookie_user decode (serve (bump_ver ann two_users).0 [] 100) (some token)
        ≢ accepted ann_claims)
    × ((delete_user ann false two_users).1 ≡ ok true
        → try_jwt_cookie_user decode (serve (delete_user ann false two_users).0 [] 100) (some token)
          ≢ accepted ann_claims)
writes_end_session_example =
    writes_end_session decode token ann_claims ann true refl refl same_hash bob false false
      two_users (row true) [] 100 ann_claims found_ann refl (omega arith)

logout_ends_session_example :
    try_jwt_cookie_user decode
      (serve two_users
        (revoke_each ((150, 9 ∷ [], 700) ∷ []) (logout decode 100 (some token) []))
        200)
      (some token)
    ≢ accepted ann_claims
unfolding session_key
logout_ends_session_example =
    logout_ends_session decode token ann_claims ann true refl refl 100 200 ((150, 9 ∷ [], 700) ∷ [])
      [] two_users ann_claims refl tt ((omega arith, refl), tt) (omega arith)

ann-valid : validate_user_id ann ≡ ok (trim ann)
unfolding validate_user_id trim trim_start trim_end len
ann-valid = refl

ann-deleted : (delete_user ann false two_users).1 ≡ ok true
unfolding delete_user count find trim trim_start trim_end
ann-deleted = refl

ann-free : is_revoked 100 (session_key (7 ∷ [])) [] ≡ false
unfolding is_revoked find
ann-free = refl

session_revives_example :
    try_jwt_cookie_user decode
      (serve
        (provision same_hash ann (ok bob) false none (delete_user ann false two_users).0).0
        []
        100)
      (some token)
    ≡ accepted (record ann_claims { role = user ann false })
session_revives_example =
    session_revives decode token ann_claims ann true refl refl same_hash bob false false none
      two_users [] 100 refl refl ann-valid ann-deleted ann-free
