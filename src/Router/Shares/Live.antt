-- ===== src/Router/Shares/Live.antt =====
-- backend/src/router/auth.rs: what opens a share, said without the code's tests.
use picasu.Prelude.{
  ◌^◌, ◌≤◌, ◌≡◌, ◌↔◌, ◌⊎◌, ℕ, none, refl, Bool, true, false, Option, some, arith, Bool-cases,
  Option-cases, inl, inr,
}
use picasu.Model.Text.{Text}
use picasu.Model.Text.Table.{Table, find}
use picasu.Model.Assets.{MetadataRecord, AlbumPayload}
use picasu.Model.Records.{Share}
use picasu.Auth.Users.{ok, UserRecord, is_blank}
use picasu.Router.Sessions.{Backend, read}
use picasu.Router.Shares.{
  is_over, withdrawn, share_of, revalidate_share_record, opens, echo, verify_share_password,
}

-- A share that is open for visitors: its creator has not switched sharing off, and its expiry, the word
-- of an `i64`, is not positive or not over.
abbrev pub IsLive : Backend → Share → Type 0
IsLive b share =
    ((creator : UserRecord)
      → is_blank share.created_by ≡ false
      → read share.created_by b.users ≡ some creator
      → creator.shares_enabled ≡ true)
    × ((share.exp ≡ 0) ⊎ ((2 ^ 63 ≤ share.exp) ⊎ (b.now ≤ share.exp)))

withdrawn_iff :
    (b : Backend) (share : Share)
    → (withdrawn b share ≡ false) ↔ (
        (creator : UserRecord)
        → is_blank share.created_by ≡ false
        → read share.created_by b.users ≡ some creator
        → creator.shares_enabled ≡ true)
withdrawn_iff b share = elim (Option-cases (read share.created_by b.users)) [
  | inl missing ↦ (λ h creator named e. absurd (ground arith), λ w. ground arith)
  | inr (r, e) ↦ (
    λ h creator named e'. ground arith,
    λ w. elim (Bool-cases (is_blank share.created_by)) [
      | inl blank ↦ ground arith
      | inr named ↦ let enabled = w r named e in ground arith
    ],
  )
]

is_over_iff :
    (now : ℕ) (share : Share)
    → (is_over now share ≡ false) ↔ ((share.exp ≡ 0) ⊎ ((2 ^ 63 ≤ share.exp) ⊎ (now ≤ share.exp)))
is_over_iff now share = (λ h. grind arith, λ w. ground arith)

pub IsLive-iff :
    (b : Backend) (share : Share)
    → ((withdrawn b share ≡ false) × (is_over b.now share ≡ false)) ↔ IsLive b share
IsLive-iff b share =
    let kept = withdrawn_iff b share in
    let early = is_over_iff b.now share in
    (λ h. (kept.0 h.0, early.0 h.1), λ l. (kept.1 l.0, early.1 l.1))

-- A presented password opens a share with this stored one, and the claims show this one.
abbrev pub Unlocks : (Text → Text → Bool) → Option Text → Option Text → Option Text → Type 0
Unlocks verify_argon presented none shown = shown ≡ none
Unlocks verify_argon none (some stored) shown = ⊥
Unlocks verify_argon (some candidate) (some stored) shown =
    (verify_share_password verify_argon candidate stored ≡ true) × (shown ≡ some candidate)

pub Unlocks-iff :
    (verify_argon : Text → Text → Bool) (presented stored shown : Option Text)
    → ((opens verify_argon presented stored ≡ true) × (shown ≡ echo verify_argon presented stored))
      ↔ Unlocks verify_argon presented stored shown
Unlocks-iff verify_argon none none shown = (λ h. h.1, λ u. (refl, u))
Unlocks-iff verify_argon (some candidate) none shown = (λ h. h.1, λ u. (refl, u))
Unlocks-iff verify_argon none (some stored) shown = (λ h. absurd (ground arith), λ u. absurd u)
Unlocks-iff verify_argon (some candidate) (some stored) shown = (λ h. h, λ u. u)

pub revalidated_iff :
    (b : Backend) (metadata : Table MetadataRecord) (album_id share_id : Text)
    (album : AlbumPayload) (share : Share)
    → share_of (find album_id metadata) share_id ≡ some (album, share)
    → (revalidate_share_record b metadata album_id share_id ≡ ok tt)
      ↔ ((withdrawn b share ≡ false) × (is_over b.now share ≡ false))
unfolding revalidate_share_record
revalidated_iff b metadata album_id share_id album share listed =
    elim (Bool-cases (withdrawn b share)) [
      | inl gone ↦
          rw (listed, gone, revalidate_share_record)
            (λ h. absurd (ground arith), λ w. absurd (ground arith))
      | inr live ↦ elim (Bool-cases (is_over b.now share)) [
        | inl late ↦
            rw (listed, live, late, revalidate_share_record)
              (λ h. absurd (ground arith), λ w. absurd (ground arith))
        | inr early ↦
            rw (listed, live, early, revalidate_share_record) (λ h. (refl, refl), λ w. refl)
      ]
    ]
