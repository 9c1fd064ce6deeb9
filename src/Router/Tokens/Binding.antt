-- ===== src/Router/Tokens/Binding.antt =====
-- backend/src/router/auth.rs: an asset token serves one presenter.
use picasu.Prelude.{
  ℕ, ◌≡◌, ◌⊎◌, inl, inr, sym, true, false, Option, none, some, arith, Option-cases,
}
use picasu.Model.Text.{Text}
use picasu.Model.Text.Table.{text_eq_iff}
use picasu.Auth.Users.{Result, ok, err, is_blank}
use picasu.Router.Sessions.{ResolvedShare, Role, user, guest, ClaimsSession}
use picasu.Router.Tokens.{
  ClaimsAsset, binds, BearerRequest, typed_asset, bearer, bound, guard_hash, guard_hash_original,
  extract_bearer_token,
}

-- The same user, or visitors of the same share.
abbrev pub SamePresenter : Role → Role → Type 0
SamePresenter (user id admin) (user other admin') = id ≡ other
SamePresenter (guest s) (guest t) = (s.album_id ≡ t.album_id) × (s.share.url ≡ t.share.url)
SamePresenter (user id admin) (guest t) = ⊥
SamePresenter (guest s) (user id admin) = ⊥

-- No user has the empty id.
abbrev pub IsNamed : Role → Type 0
IsNamed (user id admin) = is_blank id ≡ false
IsNamed (guest s) = Unit

binds-same :
    (r s : Role) (caller : Text) (share : Option ResolvedShare)
    → IsNamed r
    → IsNamed s
    → binds r caller share ≡ true
    → binds s caller share ≡ true
    → SamePresenter r s
unfolding binds
binds-same (user id a) (user other a') caller share n m h k =
    ground (arith, text_eq_iff id caller, text_eq_iff other caller)
binds-same (user id a) (guest t) caller none n m h k = ground arith
binds-same (user id a) (guest t) caller (some share) n m h k = ground (arith, text_eq_iff id caller)
binds-same (guest s) (user id a) caller none n m h k = ground arith
binds-same (guest s) (user id a) caller (some share) n m h k = ground (arith, text_eq_iff id caller)
binds-same (guest s) (guest t) caller none n m h k = absurd (ground arith)
binds-same (guest s) (guest t) caller (some share) n m h k = (
  ground (arith, text_eq_iff share.album_id s.album_id, text_eq_iff share.album_id t.album_id),
  ground (arith, text_eq_iff share.share.url s.share.url, text_eq_iff share.share.url t.share.url),
)

module _ (decode : ℕ → Text → Option ClaimsAsset) where
  -- One of the two guards that serve files lets the presenter in at a time.
  abbrev pub Served : ℕ → Result ClaimsSession → BearerRequest → ClaimsSession → Type 0
  Served now presenter req p =
      (guard_hash presenter req (decode now) ≡ ok p)
      ⊎ (guard_hash_original presenter req (decode now) ≡ ok p)

  -- The token's claims, which bind the presenter.
  abbrev Bound : ℕ → BearerRequest → ClaimsSession → Type 0
  Bound now req p =
      (claims : ClaimsAsset) × (token : Text) × (extract_bearer_token req.authorization
        ≡ some token)
      × (decode now token ≡ some claims)
      × (binds p.role claims.caller claims.resolved_share_opt ≡ true)

  bound_ok :
      (presenter : Result ClaimsSession) (p : ClaimsSession) (caller : Text)
      (share : Option ResolvedShare)
      → bound presenter caller share ≡ ok p
      → binds p.role caller share ≡ true
  bound_ok (err e) p caller share h = absurd (ground arith)
  bound_ok (ok q) p caller share h = ground arith

  bearer-decoded :
      (now : ℕ) (header : Option Text) (claims : ClaimsAsset)
      → bearer (λ token. typed_asset (decode now token)) header ≡ some claims
      → (token : Text) × (extract_bearer_token header ≡ some token)
        × (decode now token ≡ some claims)
  bearer-decoded now header claims h = elim (Option-cases (extract_bearer_token header)) [
    | inl missing ↦ absurd (ground arith)
    | inr (token, there) ↦ elim (Option-cases (decode now token)) [
      | inl bad ↦ absurd (ground arith)
      | inr (c, good) ↦ (token, there, ground arith)
    ]
  ]

  bearer-Bound :
      (now : ℕ) (presenter : Result ClaimsSession) (req : BearerRequest) (p : ClaimsSession)
      (claims : ClaimsAsset)
      → bearer (λ token. typed_asset (decode now token)) req.authorization ≡ some claims
      → bound presenter claims.caller claims.resolved_share_opt ≡ ok p
      → Bound now req p
  bearer-Bound now presenter req p claims e h =
      let (token, there, good) = bearer-decoded now req.authorization claims e in
      (claims, token, there, good, bound_ok presenter p claims.caller claims.resolved_share_opt h)

  Served-Bound :
      (now : ℕ) (presenter : Result ClaimsSession) (req : BearerRequest) (p : ClaimsSession)
      → Served now presenter req p
      → Bound now req p
  unfolding guard_hash guard_hash_original
  Served-Bound now presenter req p (inl h) =
      elim (Option-cases (bearer (λ token. typed_asset (decode now token)) req.authorization)) [
        | inl missing ↦ absurd (ground arith)
        | inr (claims, e) ↦ bearer-Bound now presenter req p claims e (ground arith)
      ]
  Served-Bound now presenter req p (inr h) =
      elim (Option-cases (bearer (λ token. typed_asset (decode now token)) req.authorization)) [
        | inl missing ↦ absurd (ground arith)
        | inr (claims, e) ↦ bearer-Bound now presenter req p claims e (ground arith)
      ]

  -- Wherever and whenever an asset token is used, it serves one user only, or the visitors of one share:
  -- both file guards refuse it to anybody else. (A token has the same claims whenever it decodes, and
  -- users have an id.)
  pub asset_one_presenter :
      (now later : ℕ) (presenter presenter' : Result ClaimsSession) (req req' : BearerRequest)
      (p q : ClaimsSession)
      → ((token : Text) (c d : ClaimsAsset)
          → decode now token ≡ some c
          → decode later token ≡ some d
          → c ≡ d)
      → req.authorization ≡ req'.authorization
      → IsNamed p.role
      → IsNamed q.role
      → Served now presenter req p
      → Served later presenter' req' q
      → SamePresenter p.role q.role
  asset_one_presenter now later presenter presenter' req req' p q stable same n m h k =
      let (c, token, there, good, binding) = Served-Bound now presenter req p h in
      let (d, token', there', good', binding') = Served-Bound later presenter' req' q k in
      let one : token' ≡ token = ground arith in
      let e : c ≡ d = stable token c d good (rw (sym one) good') in
      binds-same p.role q.role c.caller c.resolved_share_opt n m binding (rw e binding')
