-- ===== src/Router/Tokens/Renew.antt =====
-- backend/src/router/auth.rs: the renewals of snapshot and asset tokens.
use picasu.Prelude.{ℕ, Bool, true, false, not, Option, none, some, ◌==◌, if◌then◌else◌}
use picasu.Model.Text.{Text, text_eq}
use picasu.Model.Text.Table.{Table}
use picasu.Model.Assets.{MetadataRecord, album_of, visibility_path}
use picasu.Model.Records.{AbstractData}
use picasu.Auth.Users.{auth, Result, ok, err}
use picasu.Process.DirAlbum.{PathBuf, components}
use picasu.Storage.AssetStore.{Tables, lookup_abstract_data_by_asset_id}
use picasu.Storage.Files.{Roots, visible_to}
use picasu.Router.Sessions.{ResolvedShare, ClaimsSession, Backend}
use picasu.Router.Shares.{revalidate_share_record}
use picasu.Router.Tokens.{
  ClaimsSnapshot, ClaimsAsset, new_snapshot, new_asset, binds, same_share, typed_snapshot,
  typed_asset,
}

abbrev pub recheck : Backend → Table MetadataRecord → Option ResolvedShare → Result Unit
recheck b metadata none = ok tt
recheck b metadata (some s) = revalidate_share_record b metadata s.album_id s.share.url

-- The claims of the token that is issued.
unfoldable pub renew_timestamp_token :
    Backend
    → Table MetadataRecord
    → (Text → Option ClaimsSnapshot)
    → ClaimsSession
    → Text
    → Result ClaimsSnapshot
renew_timestamp_token b metadata decode_expired presenter token =
    elim (typed_snapshot (decode_expired token)) [
      | none ↦ err auth
      | some claims ↦
          if binds presenter.role claims.caller claims.resolved_share_opt
          then elim (recheck b metadata claims.resolved_share_opt) [
            | err e ↦ err e
            | ok u ↦
                ok (new_snapshot b.now claims.caller claims.resolved_share_opt claims.timestamp)
          ]
          else err auth
    ]

abbrev pub share_same : Option ResolvedShare → Option ResolvedShare → Bool
share_same (some a) (some b) = same_share a b
share_same none none = true
share_same none (some b) = false
share_same (some a) none = false

abbrev is_in : Option Text → Text → Bool
is_in none album = false
is_in (some a) album = text_eq a album

module _ (realpath : PathBuf → Option PathBuf) (exists : PathBuf → Bool) (roots : Roots) where
  abbrev sees : Text → Option Text → Bool
  sees caller none = true
  sees caller (some path) = visible_to realpath exists roots caller (components path)

  -- The asset lies in the share's album, or the caller sees its path.
  abbrev pub in_scope : Text → Option ResolvedShare → AbstractData → Bool
  in_scope caller (some s) item = is_in (album_of item) s.album_id
  in_scope caller none item = sees caller (visibility_path item)

  -- `now_ms` is the clock in milliseconds, for the view of the asset.
  unfoldable pub renew_hash_token :
      Backend
      → ℕ
      → Tables
      → (Text → Option ClaimsAsset)
      → ClaimsSnapshot
      → Text
      → Result ClaimsAsset
  renew_hash_token b now_ms tables decode_expired presenter token =
      elim (typed_asset (decode_expired token)) [
        | none ↦ err auth
        | some claims ↦
            if not (claims.timestamp == presenter.timestamp)
            then err auth
            else if not (text_eq claims.caller presenter.caller)
            then err auth
            else if not (share_same claims.resolved_share_opt presenter.resolved_share_opt)
            then err auth
            else elim (recheck b tables.metadata presenter.resolved_share_opt) [
              | err e ↦ err e
              | ok u ↦ elim (lookup_abstract_data_by_asset_id now_ms claims.asset_id tables) [
                | none ↦ err auth
                | some item ↦
                    if in_scope presenter.caller presenter.resolved_share_opt item
                    then ok (
                        new_asset b.now claims.hash claims.asset_id claims.timestamp
                          claims.allow_original claims.caller claims.resolved_share_opt)
                    else err auth
              ]
            ]
      ]
