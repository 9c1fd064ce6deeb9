-- ===== src/Router/Shares.antt =====
-- backend/src/router/auth.rs: shares, and the presenter of a request. Reads of the database succeed in
-- the model, and every row decodes. `verify_argon` is Argon2's check of a candidate against a PHC string,
-- and `jti` the fresh UUID.
pub mod Live
pub mod Access
mod Tests
use picasu.Prelude.{
  ℕ, ◌^◌, Bool, true, false, not, ◌&&◌, Option, none, some, [], ◌∷◌, ltb, map_or, if◌then◌else◌,
}
use picasu.Model.Text.{Text, text_eq, starts_with}
use picasu.Model.Text.Table.{Table, find}
use picasu.Model.Text.Trim.{len}
use picasu.Model.Records.{Share}
use picasu.Model.Assets.{MetadataRecord, image_payload, video_payload, album_payload, AlbumPayload}
use picasu.Auth.Users.{
  not_found, permission_denied, invalid_input, internal, auth, Result, ok, err, UserRecord,
  is_blank,
}
use picasu.Router.Sessions.{
  ResolvedShare, ClaimsSession, new_share, Checked, accepted, refused, Backend, read,
  try_jwt_cookie_user,
}

-- What a request carries. The header and query values are as the framework decodes them.
pub record Request : Type 0 where
  pub jwt : Option Text
  pub header_album : Option Text
  pub header_share : Option Text
  pub query_album : Option Text
  pub query_share : Option Text
  pub share_password : Option Text

abbrev pub argon_prefix : Text
argon_prefix = 36 ∷ 97 ∷ 114 ∷ 103 ∷ 111 ∷ 110 ∷ 50 ∷ 105 ∷ 100 ∷ 36 ∷ []

-- `exp > 0` for the word of an `i64`
abbrev pub expires : ℕ → Bool
expires exp = ltb 0 exp && ltb exp (2 ^ 63)

abbrev pub is_over : ℕ → Share → Bool
is_over now share = expires share.exp && ltb share.exp now

-- The creator of the share is known and has sharing switched off.
abbrev pub blocked : Option UserRecord → Bool
blocked none = false
blocked (some r) = not r.shares_enabled

abbrev pub withdrawn : Backend → Share → Bool
withdrawn b share = not (is_blank share.created_by) && blocked (read share.created_by b.users)

abbrev pub share_of : Option MetadataRecord → Text → Option (AlbumPayload × Share)
share_of (some (album_payload album)) share_id =
    map_or none (λ share. some (album, share)) (find share_id album.share_list)
share_of _ share_id = none

-- `revalidate_share_record`
unfoldable pub revalidate_share_record : Backend → Table MetadataRecord → Text → Text → Result Unit
revalidate_share_record b metadata album_id share_id =
    elim (share_of (find album_id metadata) share_id) [
      | none ↦ err auth
      | some (album, share) ↦
          if withdrawn b share then err auth else if is_over b.now share then err auth else ok tt
    ]

module _ (verify_argon : Text → Text → Bool) where
  unfoldable pub verify_share_password : Text → Text → Bool
  verify_share_password candidate stored =
      if starts_with stored argon_prefix
      then verify_argon candidate stored
      else text_eq candidate stored

  abbrev pub opens : Option Text → Option Text → Bool
  opens presented none = true
  opens none (some stored) = false
  opens (some candidate) (some stored) = verify_share_password candidate stored

  unfoldable pub validate_share_access : ℕ → Share → Option Text → Result Unit
  validate_share_access now share presented =
      if is_over now share
      then err permission_denied
      else if opens presented share.password
      then ok tt
      else err auth

  -- The resolved share shows the password that was presented, not the stored one.
  abbrev pub echo : Option Text → Option Text → Option Text
  echo presented none = none
  echo none (some stored) = some stored
  echo (some candidate) (some stored) = some candidate

  unfoldable pub grant : ℕ → Text → Text → AlbumPayload → Share → Option Text → Result ClaimsSession
  grant now jti album_id album share presented =
      if ltb 64 (len album_id)
      then err internal
      else ok (
          new_share now jti (record {
            share = record share { password = echo presented share.password };
            album_id = album_id;
            album_title = album.title;
          }))

  unfoldable pub open_share :
      Backend → Text → Text → Text → Option Text → MetadataRecord → Result ClaimsSession
  open_share b jti album_id share_id presented (album_payload album) =
      elim (find share_id album.share_list) [
        | none ↦ err not_found
        | some share ↦
            if withdrawn b share
            then err auth
            else elim (validate_share_access b.now share presented) [
              | err e ↦ err e
              | ok u ↦ grant b.now jti album_id album share presented
            ]
      ]
  open_share b jti album_id share_id presented _ = err invalid_input

  -- `resolve_share_internal`
  unfoldable pub resolve_share_internal :
      Backend → Table MetadataRecord → Text → Text → Text → Option Text → Result ClaimsSession
  resolve_share_internal b metadata jti album_id share_id presented =
      elim (find album_id metadata) [
        | none ↦ err not_found
        | some row ↦ open_share b jti album_id share_id presented row
      ]

  -- `try_resolve_share_from_headers` and `try_resolve_share_from_query`, on their pair of values
  unfoldable pub try_resolve_share :
      Backend
      → Table MetadataRecord
      → Text
      → Option Text
      → Option Text
      → Option Text
      → Result (Option ClaimsSession)
  try_resolve_share b metadata jti none none presented = ok none
  try_resolve_share b metadata jti none (some share_id) presented = err invalid_input
  try_resolve_share b metadata jti (some album_id) none presented = err invalid_input
  try_resolve_share b metadata jti (some album_id) (some share_id) presented =
      elim (resolve_share_internal b metadata jti album_id share_id presented) [
        | err e ↦ err e
        | ok claims ↦ ok (some claims)
      ]

  module _ (decode : Text → Option ClaimsSession) where
    abbrev by_cookie : Checked ClaimsSession → Result ClaimsSession
    by_cookie (accepted claims) = ok claims
    by_cookie (refused e) = err auth

    unfoldable pub resolve_presenter :
        Backend → Table MetadataRecord → Text → Request → Result ClaimsSession
    resolve_presenter b metadata jti req =
        elim (try_resolve_share b metadata jti req.header_album req.header_share
          req.share_password) [
            | err e ↦ err e
            | ok (some claims) ↦ ok claims
            | ok none ↦
                elim (try_resolve_share b metadata jti req.query_album req.query_share
                  req.share_password) [
                    | err e ↦ err e
                    | ok (some claims) ↦ ok claims
                    | ok none ↦ by_cookie (try_jwt_cookie_user decode b req.jwt)
                  ]
          ]
