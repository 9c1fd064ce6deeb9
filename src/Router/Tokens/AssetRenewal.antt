-- ===== src/Router/Tokens/AssetRenewal.antt =====
-- backend/src/router/auth.rs: when an asset token is renewed.
use picasu.Prelude.{
  ℕ, ◌≡◌, ◌↔◌, ◌+◌, ◌⊎◌, inl, inr, refl, ap, ◌∙◌, Bool, true, Option, some, arith, Option-cases,
  none, sym, false,
}
use picasu.Model.Text.{Text}
use picasu.Model.Text.Table.{Table, find, text_eq_iff}
use picasu.Model.Records.{AbstractData, Share}
use picasu.Model.Assets.{
  MetadataRecord, image_payload, video_payload, album_payload, AlbumPayload, album_of,
  visibility_path,
}
use picasu.Auth.Users.{ok, Result-cases}
use picasu.Process.DirAlbum.{PathBuf, components}
use picasu.Storage.AssetStore.{Tables, lookup_abstract_data_by_asset_id}
use picasu.Storage.Files.{Roots, visible_to}
use picasu.Router.Sessions.{ResolvedShare, TokenType, session, snapshot, asset, Backend}
use picasu.Router.Shares.{share_of, revalidate_share_record}
use picasu.Router.Tokens.{ClaimsSnapshot, ClaimsAsset, is_asset, new_asset, typed_asset}
use picasu.Router.Tokens.Renew.{recheck, share_same, in_scope, renew_hash_token}
use picasu.Router.Shares.Live.{IsLive, IsLive-iff, revalidated_iff}

-- The share's album is stored and lists it, and it is live.
abbrev pub IsListed : Backend → Table MetadataRecord → ResolvedShare → Type 0
IsListed b metadata s =
    (album : AlbumPayload) × (share : Share) × (find s.album_id metadata
      ≡ some (album_payload album))
    × (find s.share.url album.share_list ≡ some share)
    × IsLive b share

share_of-listed :
    (row : Option MetadataRecord) (id : Text) (album : AlbumPayload) (share : Share)
    → share_of row id ≡ some (album, share)
    → (row ≡ some (album_payload album)) × (find id album.share_list ≡ some share)
share_of-listed none id album share h = absurd (ground arith)
share_of-listed (some (image_payload p)) id album share h = absurd (ground arith)
share_of-listed (some (video_payload p)) id album share h = absurd (ground arith)
share_of-listed (some (album_payload p)) id album share h =
    elim (Option-cases (find id p.share_list)) [
      | inl missing ↦ absurd (ground arith)
      | inr (s, e) ↦
          let same_album : p ≡ album = ground arith in
          let same_share : s ≡ share = ground arith in
          (
            ap (λ q. some (album_payload q)) same_album,
            rw (sym same_album) (e ∙ ap some same_share),
          )
    ]

recheck_iff :
    (b : Backend) (metadata : Table MetadataRecord) (s : ResolvedShare)
    → (recheck b metadata (some s) ≡ ok tt) ↔ IsListed b metadata s
unfolding revalidate_share_record
recheck_iff b metadata s = (
  λ h. elim (Option-cases (share_of (find s.album_id metadata) s.share.url)) [
    | inl missing ↦ absurd (ground arith)
    | inr ((album, share), e) ↦
        let (stored, listed) =
          share_of-listed (find s.album_id metadata) s.share.url album share e in
        (
          album,
          share,
          stored,
          listed,
          (IsLive-iff b share).0
              ((revalidated_iff b metadata s.album_id s.share.url album share e).0 h),
        )
  ],
  λ (album, share, stored, listed, live).
      let e : share_of (find s.album_id metadata) s.share.url ≡ some (album, share) =
        rw (stored, listed) refl in
      (revalidated_iff b metadata s.album_id s.share.url album share e).1
        ((IsLive-iff b share).1 live),
)

-- The two tokens were given out for the same share, or neither for a share.
abbrev pub SameShare : Option ResolvedShare → Option ResolvedShare → Type 0
SameShare none none = Unit
SameShare (some a) (some b) = (a.album_id ≡ b.album_id) × (a.share.url ≡ b.share.url)
SameShare none (some b) = ⊥
SameShare (some a) none = ⊥

share_same_iff : (a b : Option ResolvedShare) → (share_same a b ≡ true) ↔ SameShare a b
share_same_iff none none = (λ h. tt, λ h. refl)
share_same_iff none (some b) = (λ h. absurd (ground arith), λ h. absurd h)
share_same_iff (some a) none = (λ h. absurd (ground arith), λ h. absurd h)
share_same_iff (some a) (some b) =
    let ids = text_eq_iff a.album_id b.album_id in
    let urls = text_eq_iff a.share.url b.share.url in
    (λ h. (ground (arith, ids), ground (arith, urls)), λ h. ground (arith, ids, urls))

asset-cases : (t : TokenType) → (t ≡ asset) ⊎ (is_asset t ≡ false)
asset-cases session = inr refl
asset-cases snapshot = inr refl
asset-cases asset = inl refl

typed_asset_iff :
    (o : Option ClaimsAsset) (c : ClaimsAsset)
    → (typed_asset o ≡ some c) ↔ ((o ≡ some c) × (c.typ ≡ asset))
typed_asset_iff none c = (λ h. absurd (ground arith), λ w. absurd (ground arith))
typed_asset_iff (some d) c = (
  λ h. elim (asset-cases d.typ) [
    | inl e ↦
        let same : d ≡ c = ground arith in
        (ap some same, ap (λ (x : ClaimsAsset). x.typ) (sym same) ∙ e)
    | inr e ↦ absurd (ground arith)
  ],
  λ w.
      let same : d ≡ c = ground arith in
      let e : d.typ ≡ asset = ap (λ (x : ClaimsAsset). x.typ) same ∙ w.1 in ground arith,
)

-- The tests that a renewal passes, one by one.
renewal_steps :
    (realpath : PathBuf → Option PathBuf) (exists : PathBuf → Bool) (roots : Roots) (b : Backend)
    (now_ms : ℕ) (tables : Tables) (decode_expired : Text → Option ClaimsAsset)
    (presenter : ClaimsSnapshot) (token : Text) (new : ClaimsAsset)
    → (renew_hash_token realpath exists roots b now_ms tables decode_expired presenter token
        ≡ ok new)
      ↔ ((old : ClaimsAsset) × (item : AbstractData) × (typed_asset (decode_expired token)
            ≡ some old)
          × (lookup_abstract_data_by_asset_id now_ms old.asset_id tables ≡ some item)
          × (old.timestamp ≡ presenter.timestamp)
          × (old.caller ≡ presenter.caller)
          × (share_same old.resolved_share_opt presenter.resolved_share_opt ≡ true)
          × (recheck b tables.metadata presenter.resolved_share_opt ≡ ok tt)
          × (in_scope realpath exists roots presenter.caller presenter.resolved_share_opt item
              ≡ true)
          × (new
              ≡ new_asset b.now old.hash old.asset_id old.timestamp old.allow_original old.caller
                  old.resolved_share_opt))
unfolding renew_hash_token
renewal_steps realpath exists roots b now_ms tables decode_expired presenter token new =
    elim (Option-cases (typed_asset (decode_expired token))) [
      | inl bad ↦ (λ h. absurd (ground arith), λ w. absurd (ground arith))
      | inr (old, good) ↦ (
        λ h. elim (Result-cases (recheck b tables.metadata presenter.resolved_share_opt)) [
          | inr (e, dead) ↦ absurd (ground arith)
          | inl (u, live) ↦
              elim (Option-cases (lookup_abstract_data_by_asset_id now_ms old.asset_id tables)) [
                | inl lost ↦ absurd (ground arith)
                | inr (item, found) ↦ (
                  old,
                  item,
                  good,
                  found,
                  ground arith,
                  ground (arith, text_eq_iff old.caller presenter.caller),
                  ground arith,
                  live,
                  ground arith,
                  ground arith,
                )
              ]
        ],
        λ w.
            let (old', item, good', found, time, caller, share, live, scope, e) = w in
            ground (arith, text_eq_iff old.caller presenter.caller),
      )
    ]

module _ (realpath : PathBuf → Option PathBuf) (exists : PathBuf → Bool) (roots : Roots)
    (b : Backend) (now_ms : ℕ) (tables : Tables) where
  -- The asset lies in the share's album, which still lists the share, or the caller may see its file.
  abbrev pub InScope : Text → Option ResolvedShare → AbstractData → Type 0
  InScope caller (some s) item = IsListed b tables.metadata s × (album_of item ≡ some s.album_id)
  InScope caller none item =
      (path : Text)
      → visibility_path item ≡ some path
      → visible_to realpath exists roots caller (components path) ≡ true

  in_scope_iff :
      (caller : Text) (share : Option ResolvedShare) (item : AbstractData)
      → ((recheck b tables.metadata share ≡ ok tt)
          × (in_scope realpath exists roots caller share item ≡ true))
        ↔ InScope caller share item
  in_scope_iff caller none item = elim (Option-cases (visibility_path item)) [
    | inl missing ↦ (λ h path e. absurd (ground arith), λ w. (refl, ground arith))
    | inr (p, e) ↦ (λ h path e'. ground arith, λ w. let seen = w p e in (refl, ground arith))
  ]
  in_scope_iff caller (some s) item =
      let listed = recheck_iff b tables.metadata s in
      elim (Option-cases (album_of item)) [
        | inl missing ↦ (λ h. absurd (ground arith), λ w. absurd (ground arith))
        | inr (a, e) ↦ (
          λ h. (listed.0 h.0, ground (arith, text_eq_iff a s.album_id)),
          λ w. (listed.1 w.0, ground (arith, text_eq_iff a s.album_id)),
        )
      ]

  -- An asset token is renewed exactly if it is one, whatever its age, and carries the time and the caller of
  -- the presented snapshot token and the same share or none, and its asset is stored and in scope: for a
  -- share, its album lists it, it is live, and the asset lies in this album; without a share, the caller
  -- sees the asset's file, if it has one. The new token differs in its expiry only, which is 300 seconds ahead.
  pub renew_hash_token_iff :
      (decode_expired : Text → Option ClaimsAsset) (presenter : ClaimsSnapshot) (token : Text)
      (new : ClaimsAsset)
      → (renew_hash_token realpath exists roots b now_ms tables decode_expired presenter token
          ≡ ok new)
        ↔ ((old : ClaimsAsset) × (item : AbstractData) × (decode_expired token ≡ some old)
            × (old.typ ≡ asset)
            × (lookup_abstract_data_by_asset_id now_ms old.asset_id tables ≡ some item)
            × (old.timestamp ≡ presenter.timestamp)
            × (old.caller ≡ presenter.caller)
            × SameShare old.resolved_share_opt presenter.resolved_share_opt
            × InScope presenter.caller presenter.resolved_share_opt item
            × (new ≡ record old { exp = b.now + 300 }))
  unfolding new_asset
  renew_hash_token_iff decode_expired presenter token new =
      let steps =
        renewal_steps realpath exists roots b now_ms tables decode_expired presenter token new in
      (
        λ h.
            let (old, item, typed, found, time, caller, share, live, scope, e) = steps.0 h in
            let (decoded, is_asset) = (typed_asset_iff (decode_expired token) old).0 typed in
            (
              old,
              item,
              decoded,
              is_asset,
              found,
              time,
              caller,
              (share_same_iff old.resolved_share_opt presenter.resolved_share_opt).0 share,
              (in_scope_iff presenter.caller presenter.resolved_share_opt item).0 (live, scope),
              e ∙ ap (λ t. record old { exp = b.now + 300; typ = t }) (sym is_asset),
            ),
        λ (old, item, decoded, is_asset, found, time, caller, share, inside, e).
            let (live, scope) =
              (in_scope_iff presenter.caller presenter.resolved_share_opt item).1 inside in
            steps.1 (
              old,
              item,
              (typed_asset_iff (decode_expired token) old).1 (decoded, is_asset),
              found,
              time,
              caller,
              (share_same_iff old.resolved_share_opt presenter.resolved_share_opt).1 share,
              live,
              scope,
              e ∙ ap (λ t. record old { exp = b.now + 300; typ = t }) is_asset,
            ),
      )
