-- ===== src/Router/Shares/Access.antt =====
-- backend/src/router/auth.rs: which shares open.
use picasu.Prelude.{
  ◌+◌, ◌*◌, ◌≤◌, ◌≡◌, ◌↔◌, refl, sym, ap, ◌∙◌, Bool, true, false, Option, some, ltb, arith,
  Bool-cases, Option-cases, inl, inr,
}
use picasu.Model.Text.{Text}
use picasu.Model.Text.Table.{Table, find}
use picasu.Model.Text.Trim.{len}
use picasu.Model.Records.{Share}
use picasu.Model.Assets.{MetadataRecord, image_payload, video_payload, album_payload, AlbumPayload}
use picasu.Auth.Users.{ok}
use picasu.Router.Sessions.{ClaimsSession, guest, session, new_share, Backend}
use picasu.Router.Shares.{
  is_over, withdrawn, share_of, revalidate_share_record, opens, validate_share_access, echo, grant,
  open_share, resolve_share_internal,
}
use picasu.Router.Shares.Live.{IsLive, IsLive-iff, Unlocks, Unlocks-iff, revalidated_iff}

module _ (verify_argon : Text → Text → Bool) (b : Backend) (metadata : Table MetadataRecord)
    (jti album_id share_id : Text) (presented : Option Text) where
  -- The share that a visitor is given.
  abbrev pub given : AlbumPayload → Share → ClaimsSession
  given album share = new_share b.now jti (record {
    share = record share { password = echo verify_argon presented share.password };
    album_id = album_id;
    album_title = album.title;
  })

  -- What a listed share must pass.
  abbrev Passes : AlbumPayload → Share → ClaimsSession → Type 0
  Passes album share c =
      (withdrawn b share ≡ false)
      × (is_over b.now share ≡ false)
      × (opens verify_argon presented share.password ≡ true)
      × (c ≡ given album share)

  opened_iff :
      (album : AlbumPayload) (share : Share) (c : ClaimsSession)
      → len album_id ≤ 64
      → find share_id album.share_list ≡ some share
      → (open_share verify_argon b jti album_id share_id presented (album_payload album) ≡ ok c)
        ↔ Passes album share c
  unfolding open_share validate_share_access grant
  opened_iff album share c short listed =
      let fits : ltb 64 (len album_id) ≡ false = ground arith in
      elim (Bool-cases (withdrawn b share)) [
        | inl gone ↦
            rw (listed, gone, open_share) (λ h. absurd (ground arith), λ w. absurd (ground arith))
        | inr live ↦ elim (Bool-cases (is_over b.now share)) [
          | inl late ↦
              rw (listed, live, late, open_share)
                (λ h. absurd (ground arith), λ w. absurd (ground arith))
          | inr early ↦ elim (Bool-cases (opens verify_argon presented share.password)) [
            | inl right ↦
                rw (listed, live, early, right, fits, open_share)
                  (λ h. (refl, refl, refl, ground arith), λ w. ground arith)
            | inr wrong ↦
                rw (listed, live, early, wrong, open_share)
                  (λ h. absurd (ground arith), λ w. absurd (ground arith))
          ]
        ]
      ]

  opened_album :
      (row : MetadataRecord) (c : ClaimsSession)
      → open_share verify_argon b jti album_id share_id presented row ≡ ok c
      → (album : AlbumPayload) × (row ≡ album_payload album)
  unfolding open_share
  opened_album (image_payload p) c h = absurd (ground arith)
  opened_album (video_payload p) c h = absurd (ground arith)
  opened_album (album_payload p) c h = (p, refl)

  opened_listed :
      (album : AlbumPayload) (c : ClaimsSession)
      → open_share verify_argon b jti album_id share_id presented (album_payload album) ≡ ok c
      → (share : Share) × (find share_id album.share_list ≡ some share)
  unfolding open_share
  opened_listed album c h = elim (Option-cases (find share_id album.share_list)) [
    | inl missing ↦ absurd (ground arith)
    | inr found ↦ found
  ]

  -- A visitor's claims.
  abbrev IsClaims : AlbumPayload → Share → Option Text → ClaimsSession → Type 0
  IsClaims album share shown c = c ≡ record {
    role = guest (record {
      share = record share { password = shown };
      album_id = album_id;
      album_title = album.title;
    });
    exp = b.now + 14 * 86400;
    typ = session;
    jti = jti;
    ver = 0;
  }

  -- What an opened share and the visitor's claims are.
  abbrev pub Opened : ClaimsSession → Type 0
  Opened c =
      (album : AlbumPayload) × (share : Share) × (find album_id metadata
        ≡ some (album_payload album))
      × (find share_id album.share_list ≡ some share)
      × IsLive b share
      × ((shown : Option Text) × Unlocks verify_argon presented share.password shown
          × IsClaims album share shown c)

  Passes-iff :
      (album : AlbumPayload) (share : Share) (c : ClaimsSession)
      → Passes album share c ↔ (
          IsLive b share
          × ((shown : Option Text) × Unlocks verify_argon presented share.password shown
              × IsClaims album share shown c))
  unfolding new_share
  Passes-iff album share c =
      let live = IsLive-iff b share in
      let unlocks = Unlocks-iff verify_argon presented share.password in
      (
        λ (kept, early, right, e). (live.0 (kept, early), (_, (unlocks _).0 (right, refl), e)),
        λ (l, (shown, u, e)).
            let (kept, early) = live.1 l in
            let (right, same) = (unlocks shown).1 u in
            (
              kept,
              early,
              right,
              e
                  ∙ ap
                      (λ p. new_share b.now jti (record {
                        share = record share { password = p };
                        album_id = album_id;
                        album_title = album.title;
                      }))
                      same,
            ),
      )

  -- A share opens exactly if its album is stored and lists it, its creator has not switched sharing off,
  -- it has no expiry or is not past it, and, where it has a password, the presented one is right. The
  -- visitor then is a guest of this share for 14 days, with claims that show the presented password in the
  -- place of the stored one. (The album's id has at most 64 characters.)
  pub share_opens_iff :
      (c : ClaimsSession)
      → len album_id ≤ 64
      → (resolve_share_internal verify_argon b metadata jti album_id share_id presented ≡ ok c)
        ↔ Opened c
  unfolding resolve_share_internal
  share_opens_iff c short = (
    λ h. elim (Option-cases (find album_id metadata)) [
      | inl missing ↦ absurd (ground arith)
      | inr (row, stored) ↦
          let opened : open_share verify_argon b jti album_id share_id presented row ≡ ok c =
            ground arith in
          let (album, is_album) = opened_album row c opened in
          let opened' : open_share verify_argon b jti album_id share_id presented
                (album_payload album)
              ≡ ok c =
            rw (sym is_album) opened in
          let (share, listed) = opened_listed album c opened' in
          let (live, claims) =
            (Passes-iff album share c).0 ((opened_iff album share c short listed).0 opened') in
          (album, share, stored ∙ ap some is_album, listed, live, claims)
    ],
    λ w.
        let (album, share, stored, listed, live, claims) = w in
        rw (stored, resolve_share_internal)
          ((opened_iff album share c short listed).1 ((Passes-iff album share c).1 (live, claims))),
  )

  -- A renewal re-checks a share as its opening does, but for the password: a share of a stored album opens
  -- exactly if it passes the re-check and the presented password is right.
  pub reopens_iff :
      (album : AlbumPayload) (share : Share)
      → len album_id ≤ 64
      → find album_id metadata ≡ some (album_payload album)
      → find share_id album.share_list ≡ some share
      → (resolve_share_internal verify_argon b metadata jti album_id share_id presented
          ≡ ok (given album share))
        ↔ ((revalidate_share_record b metadata album_id share_id ≡ ok tt)
            × (opens verify_argon presented share.password ≡ true))
  unfolding resolve_share_internal
  reopens_iff album share short stored listed =
      let same = opened_iff album share (given album share) short listed in
      let shared : share_of (find album_id metadata) share_id ≡ some (album, share) =
        rw (stored, listed) refl in
      (
        λ h.
            let opened : open_share verify_argon b jti album_id share_id presented
                  (album_payload album)
                ≡ ok (given album share) =
              ground arith in
            let (live, early, right, e) = same.0 opened in
            (
              (revalidated_iff b metadata album_id share_id album share shared).1 (live, early),
              right,
            ),
        λ w.
            let (live, early) =
              (revalidated_iff b metadata album_id share_id album share shared).0 w.0 in
            rw (stored, resolve_share_internal) (same.1 (live, early, w.1, refl)),
      )
