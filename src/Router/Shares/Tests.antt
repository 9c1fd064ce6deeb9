-- ===== src/Router/Shares/Tests.antt =====
-- An album with a share that has a password.
use picasu.Prelude.{◌≤◌, ◌≡◌, ◌↔◌, refl, Bool, true, false, none, some, [], ◌∷◌, arith}
use picasu.Model.Text.{Text, starts_with}
use picasu.Model.Text.Table.{Table, find}
use picasu.Model.Text.Trim.{len}
use picasu.Model.Records.{Share}
use picasu.Model.Assets.{MetadataRecord, album_payload, AlbumPayload}
use picasu.Auth.Users.{ok}
use picasu.Router.Sessions.{guest, session, ClaimsSession, new_share, Backend}
use picasu.Router.Shares.{
  verify_share_password, validate_share_access, grant, open_share, resolve_share_internal,
}
use picasu.Router.Shares.Access.{Opened, share_opens_iff}

abbrev share : Share
share = record {
  url = 5 ∷ [];
  description = [];
  password = some (112 ∷ []);
  show_metadata = true;
  show_download = false;
  show_upload = false;
  exp = 200;
  created_by = [];
}

abbrev payload : AlbumPayload
payload = record {
  tags = [];
  description = none;
  rating = none;
  update_at = 0;
  pending = false;
  thumbhash = none;
  title = none;
  created_time = 0;
  start_time = none;
  end_time = none;
  last_modified_time = 0;
  cover = none;
  item_count = 0;
  item_size = 0;
  share_list = (5 ∷ [], share) ∷ [];
  custom_title = none;
}

abbrev metadata : Table MetadataRecord
metadata = (4 ∷ [], album_payload payload) ∷ []

abbrev backend : Backend
backend = record { users = []; revocations = []; now = 100 }

abbrev no_argon : Text → Text → Bool
no_argon candidate stored = false

short : len (4 ∷ []) ≤ 64
unfolding len
short = omega arith

-- The visitor who comes with the password 112.
abbrev visitor : ClaimsSession
visitor = record {
  role = guest (record { share = share; album_id = 4 ∷ []; album_title = none });
  exp = 1209700;
  typ = session;
  jti = 8 ∷ [];
  ver = 0;
}

share_opens_iff_example :
    (resolve_share_internal no_argon backend metadata (8 ∷ []) (4 ∷ []) (5 ∷ []) (some (112 ∷ []))
      ≡ ok visitor)
    ↔ Opened no_argon backend metadata (8 ∷ []) (4 ∷ []) (5 ∷ []) (some (112 ∷ [])) visitor
share_opens_iff_example =
    share_opens_iff no_argon backend metadata (8 ∷ []) (4 ∷ []) (5 ∷ []) (some (112 ∷ [])) visitor
      short

opens_here :
    resolve_share_internal no_argon backend metadata (8 ∷ []) (4 ∷ []) (5 ∷ []) (some (112 ∷ []))
    ≡ ok visitor
unfolding resolve_share_internal open_share validate_share_access grant verify_share_password
    new_share starts_with len find
opens_here = refl
