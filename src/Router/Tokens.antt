-- ===== src/Router/Tokens.antt =====
-- backend/src/router/auth.rs: snapshot and asset tokens, the guards that take them. The
-- decoders are jsonwebtoken's with the server's key: `decode_snapshot` and `decode_asset` check the
-- expiry, the `_expired` ones do not.
pub mod Binding
pub mod Renewal
pub mod AssetRenewal
pub mod Renew
mod Tests
use picasu.Prelude.{
  ℕ, ◌+◌, Bool, true, false, not, ◌&&◌, Option, none, some, [], ◌∷◌, ◌==◌, if◌then◌else◌,
}
use picasu.Model.Text.{Text, text_eq}
use picasu.Model.Text.Table.{Table}
use picasu.Model.Assets.{MetadataRecord, album_of, visibility_path}
use picasu.Model.Records.{AbstractData}
use picasu.Auth.Users.{auth, Result, ok, err, is_blank}
use picasu.Process.DirAlbum.{PathBuf, components}
use picasu.Storage.AssetStore.{Tables, lookup_abstract_data_by_asset_id}
use picasu.Storage.Files.{Roots, visible_to}
use picasu.Router.Sessions.{
  ResolvedShare, Role, user, guest, TokenType, session, snapshot, asset, ClaimsSession, Backend,
}
use picasu.Router.Shares.{Request, revalidate_share_record, resolve_presenter}

pub record ClaimsSnapshot : Type 0 where
  pub caller : Text
  pub resolved_share_opt : Option ResolvedShare
  pub timestamp : ℕ
  pub exp : ℕ
  pub typ : TokenType

pub record ClaimsAsset : Type 0 where
  pub allow_original : Bool
  pub hash : Text
  pub asset_id : Text
  pub timestamp : ℕ
  pub exp : ℕ
  pub caller : Text
  pub resolved_share_opt : Option ResolvedShare
  pub typ : TokenType

-- `ClaimsSnapshot::new` and `ClaimsAsset::new`, with the clock in seconds
unfoldable pub new_snapshot : ℕ → Text → Option ResolvedShare → ℕ → ClaimsSnapshot
new_snapshot now caller share timestamp = record {
  caller = caller;
  resolved_share_opt = share;
  timestamp = timestamp;
  exp = now + 300;
  typ = snapshot;
}

unfoldable pub new_asset : ℕ → Text → Text → ℕ → Bool → Text → Option ResolvedShare → ClaimsAsset
new_asset now hash asset_id timestamp allow_original caller share = record {
  allow_original = allow_original;
  hash = hash;
  asset_id = asset_id;
  timestamp = timestamp;
  exp = now + 300;
  caller = caller;
  resolved_share_opt = share;
  typ = asset;
}

abbrev pub bearer_prefix : Text
bearer_prefix = 66 ∷ 101 ∷ 97 ∷ 114 ∷ 101 ∷ 114 ∷ 32 ∷ []

-- `str::strip_prefix`, with the prefix second
unfoldable pub strip_text : Text → Text → Option Text
strip_text text [] = some text
strip_text [] (d ∷ prefix) = none
strip_text (c ∷ text) (d ∷ prefix) =
    let rest = strip_text text prefix in if c == d then rest else none

unfoldable pub extract_bearer_token : Option Text → Option Text
extract_bearer_token none = none
extract_bearer_token (some header) = strip_text header bearer_prefix

abbrev before_dot : ℕ → Option Text → Option Text
before_dot c none = if c == 46 then some [] else none
before_dot c (some id) = some (c ∷ id)

-- `rsplit_once('.')`, the part before the dot
unfoldable pub rsplit_dot : Text → Option Text
rsplit_dot [] = none
rsplit_dot (c ∷ cs) = before_dot c (rsplit_dot cs)

-- `segment` is the last one of the request's path.
unfoldable pub extract_serving_id_from_path : Option Text → Option Text
extract_serving_id_from_path none = none
extract_serving_id_from_path (some segment) = rsplit_dot segment

abbrev pub same_share : ResolvedShare → ResolvedShare → Bool
same_share a b = text_eq a.album_id b.album_id && text_eq a.share.url b.share.url

-- Whether the presenter is the one that a token was minted for.
unfoldable pub binds : Role → Text → Option ResolvedShare → Bool
binds (user id admin) caller share = text_eq id caller
binds (guest s) caller none = false
binds (guest s) caller (some share) = is_blank caller && same_share share s

abbrev is_snapshot : TokenType → Bool
is_snapshot snapshot = true
is_snapshot _ = false

abbrev pub is_asset : TokenType → Bool
is_asset asset = true
is_asset _ = false

-- A request with a bearer token. `timestamp` is the query's, if it parses.
pub record BearerRequest : Type 0 where
  pub request : Request
  pub authorization : Option Text
  pub segment : Option Text
  pub timestamp : Option ℕ

abbrev pub typed_snapshot : Option ClaimsSnapshot → Option ClaimsSnapshot
typed_snapshot none = none
typed_snapshot (some c) = if is_snapshot c.typ then some c else none

abbrev pub typed_asset : Option ClaimsAsset → Option ClaimsAsset
typed_asset none = none
typed_asset (some c) = if is_asset c.typ then some c else none

-- The bearer token's claims.
abbrev pub bearer {ℓ} : {A : Type ℓ} → (Text → Option A) → Option Text → Option A
bearer decode header = elim (extract_bearer_token header) [
  | none ↦ none
  | some token ↦ decode token
]

-- The presenter, whom the claims must bind.
abbrev pub bound : Result ClaimsSession → Text → Option ResolvedShare → Result ClaimsSession
bound (err e) caller share = err e
bound (ok presenter) caller share =
    if binds presenter.role caller share then ok presenter else err auth

abbrev matches_id : Option Text → Text → Bool
matches_id none id = false
matches_id (some found) id = text_eq found id

abbrev matches_time : Option ℕ → ℕ → Bool
matches_time none timestamp = false
matches_time (some t) timestamp = t == timestamp

-- Each guard takes the answer of `resolve_presenter`, which it asks for last.
module _ (presenter : Result ClaimsSession) (req : BearerRequest) where
  unfoldable pub guard_hash : (Text → Option ClaimsAsset) → Result ClaimsSession
  guard_hash decode_asset =
      elim (bearer (λ token. typed_asset (decode_asset token)) req.authorization) [
        | none ↦ err auth
        | some claims ↦
            if matches_id (extract_serving_id_from_path req.segment) claims.hash
            then bound presenter claims.caller claims.resolved_share_opt
            else err auth
      ]

  unfoldable pub guard_hash_original : (Text → Option ClaimsAsset) → Result ClaimsSession
  guard_hash_original decode_asset =
      elim (bearer (λ token. typed_asset (decode_asset token)) req.authorization) [
        | none ↦ err auth
        | some claims ↦
            if not claims.allow_original
            then err auth
            else if matches_id (extract_serving_id_from_path req.segment) claims.asset_id
            then bound presenter claims.caller claims.resolved_share_opt
            else err auth
      ]

  unfoldable pub guard_snapshot : (Text → Option ClaimsSnapshot) → Result ClaimsSession
  guard_snapshot decode_snapshot =
      elim (bearer (λ token. typed_snapshot (decode_snapshot token)) req.authorization) [
        | none ↦ err auth
        | some claims ↦
            if matches_time req.timestamp claims.timestamp
            then bound presenter claims.caller claims.resolved_share_opt
            else err auth
      ]

-- `GuardRenewHash`
unfoldable pub guard_renew_hash :
    (Text → Option ClaimsSnapshot) → BearerRequest → Result ClaimsSnapshot
guard_renew_hash decode_snapshot req =
    elim (bearer (λ token. typed_snapshot (decode_snapshot token)) req.authorization) [
      | none ↦ err auth
      | some claims ↦ ok claims
    ]
