-- ===== src/Router/Tokens/Tests.antt =====
-- A user with a snapshot token and an asset token.
use picasu.Prelude.{
  ℕ, ◌≡◌, ◌↔◌, inl, inr, refl, Bool, true, false, Option, none, some, [], ◌∷◌, ◌++◌, arith,
  if◌then◌else◌,
}
use picasu.Model.Text.{Text, text_eq, starts_with}
use picasu.Model.Text.Table.{find}
use picasu.Model.Assets.{image_kind, AssetRecord, visibility_path}
use picasu.Model.Assets.Compose.{
  compose_abstract_data, compose_image, new_image, new_object, file_entry,
}
use picasu.Model.Records.{AbstractData}
use picasu.Auth.Users.{ok}
use picasu.Process.DirAlbum.{
  PathBuf, components, segments, is_absolute, body, path_eq, component_eq,
}
use picasu.Process.DirAlbum.Cache.{strip_prefix}
use picasu.Storage.AssetStore.{Tables, get_asset_by_id, lookup_abstract_data_by_asset_id}
use picasu.Storage.Files.{Roots, visible_to, classify_path, canonicalize_if_exists}
use picasu.Router.Sessions.{user, session, snapshot, asset, ClaimsSession, Backend}
use picasu.Router.Shares.{Request}
use picasu.Router.Tokens.{
  ClaimsSnapshot, ClaimsAsset, new_snapshot, new_asset, bearer_prefix, strip_text,
  extract_bearer_token, rsplit_dot, extract_serving_id_from_path, binds, BearerRequest, guard_hash,
  guard_hash_original,
}
use picasu.Router.Tokens.Renew.{renew_timestamp_token, renew_hash_token}
use picasu.Router.Tokens.Binding.{SamePresenter, asset_one_presenter}
use picasu.Router.Tokens.AssetRenewal.{SameShare, InScope, renew_hash_token_iff}

abbrev ann : Text
ann = 97 ∷ 110 ∷ 110 ∷ []

abbrev ann_session : ClaimsSession
ann_session = record { role = user ann false; exp = 900; typ = session; jti = 1 ∷ []; ver = 0 }

abbrev backend : Backend
backend = record { users = []; revocations = []; now = 100 }

abbrev old_snapshot : ClaimsSnapshot
old_snapshot = record {
  caller = ann;
  resolved_share_opt = none;
  timestamp = 77;
  exp = 50;
  typ = snapshot;
}

-- The tokens 1 and 2 are the expired and the renewed snapshot token, 3 is an asset token.
abbrev decode_expired : Text → Option ClaimsSnapshot
decode_expired t = if text_eq t (1 ∷ []) then some old_snapshot else none

decode_snapshot : Text → Option ClaimsSnapshot
decode_snapshot t = if text_eq t (2 ∷ []) then some (new_snapshot 100 ann none 77) else none

abbrev request : Request
request = record {
  jwt = none;
  header_album = none;
  header_share = none;
  query_album = none;
  query_share = none;
  share_password = none;
}

renewed :
    renew_timestamp_token backend [] decode_expired ann_session (1 ∷ [])
    ≡ ok (new_snapshot 100 ann none 77)
unfolding renew_timestamp_token binds new_snapshot
renewed = refl

fresh_decodes : decode_snapshot (2 ∷ []) ≡ some (new_snapshot 100 ann none 77)
unfolding decode_snapshot
fresh_decodes = refl

abbrev asset_claims : ClaimsAsset
asset_claims = record {
  allow_original = true;
  hash = 104 ∷ [];
  asset_id = 105 ∷ [];
  timestamp = 77;
  exp = 50;
  caller = ann;
  resolved_share_opt = none;
  typ = asset;
}

abbrev decode_asset : ℕ → Text → Option ClaimsAsset
decode_asset now t = if text_eq t (3 ∷ []) then some asset_claims else none

-- The request of h.jpg or i.jpg with the asset token.
abbrev file_request : ℕ → BearerRequest
file_request c = record {
  request = request;
  authorization = some (bearer_prefix ++ 3 ∷ []);
  segment = some (c ∷ 46 ∷ 106 ∷ 112 ∷ 103 ∷ []);
  timestamp = none;
}

by_hash : guard_hash (ok ann_session) (file_request 104) (decode_asset 40) ≡ ok ann_session
unfolding guard_hash extract_bearer_token strip_text extract_serving_id_from_path rsplit_dot binds
by_hash = refl

by_id : guard_hash_original (ok ann_session) (file_request 105) (decode_asset 45) ≡ ok ann_session
unfolding guard_hash_original extract_bearer_token strip_text extract_serving_id_from_path
    rsplit_dot binds
by_id = refl

asset_one_presenter_example : SamePresenter ann_session.role ann_session.role
asset_one_presenter_example =
    asset_one_presenter decode_asset 40 45 (ok ann_session) (ok ann_session) (file_request 104)
      (file_request 105) ann_session ann_session (λ token c d h k. ground arith) refl refl refl
      (inl by_hash) (inr by_id)

abbrev realpath : PathBuf → Option PathBuf
realpath path = some path

exists : PathBuf → Bool
exists path = true

-- The users' root is /u.
abbrev roots : Roots
roots = record { image_home = none; users_home = some (components (47 ∷ 117 ∷ [])) }

-- The row of /u/ann/x, an image.
abbrev row : AssetRecord
row = record {
  asset_id = 105 ∷ [];
  kind = image_kind;
  path = 47 ∷ 117 ∷ 47 ∷ 97 ∷ 110 ∷ 110 ∷ 47 ∷ 120 ∷ [];
  content_hash = some (104 ∷ []);
  file_size = 10;
  ext = 106 ∷ [];
  modified = 1;
  scan_time = 2;
  is_trashed = false;
  album_id = none;
}

abbrev tables : Tables
tables = record { by_path = []; by_id = (105 ∷ [], row) ∷ []; dupes = []; metadata = [] }

abbrev renewed_claims : ClaimsAsset
renewed_claims = record asset_claims { exp = 400 }

renew_hash_token_iff_example :
    (renew_hash_token realpath exists roots backend 5 tables (decode_asset 60) old_snapshot (3 ∷ [])
      ≡ ok renewed_claims)
    ↔ ((old : ClaimsAsset) × (item : AbstractData) × (decode_asset 60 (3 ∷ []) ≡ some old)
        × (old.typ ≡ asset)
        × (lookup_abstract_data_by_asset_id 5 old.asset_id tables ≡ some item)
        × (old.timestamp ≡ 77)
        × (old.caller ≡ ann)
        × SameShare old.resolved_share_opt none
        × InScope realpath exists roots backend 5 tables ann none item
        × (renewed_claims ≡ record old { exp = 400 }))
renew_hash_token_iff_example =
    renew_hash_token_iff realpath exists roots backend 5 tables (decode_asset 60) old_snapshot
      (3 ∷ []) renewed_claims

renews_here :
    renew_hash_token realpath exists roots backend 5 tables (decode_asset 60) old_snapshot (3 ∷ [])
    ≡ ok renewed_claims
unfolding renew_hash_token new_asset lookup_abstract_data_by_asset_id get_asset_by_id find
    compose_abstract_data compose_image new_image new_object file_entry visibility_path visible_to
    classify_path canonicalize_if_exists components segments is_absolute body starts_with
    strip_prefix path_eq component_eq
renews_here = refl
