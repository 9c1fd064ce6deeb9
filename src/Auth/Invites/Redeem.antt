-- ===== src/Auth/Invites/Redeem.antt =====
-- When an invite is redeemed, and what is left when it is not.
use picasu.Prelude.{
  ℕ, ◌≡◌, refl, sym, ap, ◌∙◌, ◌↔◌, true, none, some, Bool-cases, ◌⊎◌, inl, inr, arith,
}
use picasu.Model.Text.{Text}
use picasu.Model.Text.Table.{find, insert, HasKeys}
use picasu.Auth.Users.{
  Result-cases, ErrorKind, io, conflict, Result, ok, err, Users, validate_user_id,
}
use picasu.Auth.Invites.Claim.{Admits, is_set-none, claim_iff}
use picasu.Auth.Invites.{InviteRecord, Invites, claim, is_set, enter, redeem_invite, new_user}

module _ (hash_token hash_password : Text → Text) (now : ℕ) (user_id token canonical : Text)
    (users after : Users) (invites : Invites) where
  abbrev pub redeemed : Invites × Users × Result Unit
  redeemed =
      redeem_invite hash_token hash_password now user_id token canonical users users after invites

  pub redeem-invalid :
      (e : ErrorKind) → validate_user_id user_id ≡ err e → redeemed ≡ (invites, after, err e)
  unfolding redeem_invite
  redeem-invalid e invalid = rw (invalid, redeem_invite) refl

  pub redeem-known :
      (id : Text)
      → validate_user_id user_id ≡ ok id
      → is_set (find id users) ≡ true
      → redeemed ≡ (invites, after, err conflict)
  unfolding redeem_invite
  redeem-known id valid known = ground (arith, valid, known)

  pub redeem-refused :
      (id : Text) (e : ErrorKind)
      → validate_user_id user_id ≡ ok id
      → find id users ≡ none
      → claim now id (hash_token token) users invites ≡ err e
      → redeemed ≡ (invites, after, err e)
  unfolding redeem_invite
  redeem-refused id e valid new refused = rw (valid, new, refused, redeem_invite) refl

  pub redeem-race :
      (id : Text) (invites' : Invites)
      → validate_user_id user_id ≡ ok id
      → find id users ≡ none
      → claim now id (hash_token token) users invites ≡ ok invites'
      → is_set (find id after) ≡ true
      → redeemed ≡ (invites', after, err io)
  unfolding redeem_invite enter
  redeem-race id invites' valid new claimed taken = ground (arith, valid, new, claimed, taken)

  pub redeem-success :
      (id : Text) (invites' : Invites)
      → validate_user_id user_id ≡ ok id
      → find id users ≡ none
      → claim now id (hash_token token) users invites ≡ ok invites'
      → find id after ≡ none
      → redeemed ≡ (invites', insert id (new_user hash_token hash_password canonical) after, ok tt)
  unfolding redeem_invite enter
  redeem-success id invites' valid new claimed free = ground (arith, valid, new, claimed, free)

  -- The ways a redemption ends while the user store is left alone.
  pub redeem-cases :
      after ≡ users
      → ((e : ErrorKind) × (redeemed ≡ (invites, after, err e)))
        ⊎ ((id : Text) × (invites' : Invites) × (validate_user_id user_id ≡ ok id)
            × (find id users ≡ none)
            × (claim now id (hash_token token) users invites ≡ ok invites')
            × (redeemed
                ≡ (invites', insert id (new_user hash_token hash_password canonical) after, ok tt)))
  redeem-cases same = elim (Result-cases (validate_user_id user_id)) [
    | inr (e, invalid) ↦ inl (e, redeem-invalid e invalid)
    | inl (id, valid) ↦ elim (Bool-cases (is_set (find id users))) [
      | inl known ↦ inl (conflict, redeem-known id valid known)
      | inr unknown ↦
          let new = (is_set-none (find id users)).0 unknown in
          elim (Result-cases (claim now id (hash_token token) users invites)) [
            | inr (e, refused) ↦ inl (e, redeem-refused id e valid new refused)
            | inl (invites', claimed) ↦ inr (
              id,
              invites',
              valid,
              new,
              claimed,
              redeem-success id invites' valid new claimed (ap (λ s. find id s) same ∙ new),
            )
          ]
    ]
  ]

module _ (hash_token hash_password : Text → Text) where
  -- With the user store left alone by others, a redemption succeeds exactly if the user id is valid and
  -- new and the token's row admits it. Then that row is marked used and the user is in the store.
  pub redeem_invite_iff :
      (now : ℕ) (user_id token canonical : Text) (users : Users) (invites : Invites)
      → HasKeys invites
      → (invites' : Invites) (users' : Users)
      → (redeem_invite hash_token hash_password now user_id token canonical users users users
            invites
          ≡ (invites', users', ok tt))
        ↔ ((id : Text) × (r : InviteRecord) × (validate_user_id user_id ≡ ok id)
            × (find id users ≡ none)
            × (find (hash_token token) invites ≡ some r)
            × Admits now id r
            × (invites' ≡ insert (hash_token token) (record r { used_by = some id }) invites)
            × (users' ≡ insert id (new_user hash_token hash_password canonical) users))
  redeem_invite_iff now user_id token canonical users invites u invites' users' = (
    λ h.
        elim (redeem-cases hash_token hash_password now user_id token canonical users users invites
          refl) [
            | inl (e, refused) ↦ absurd (ground arith)
            | inr (id, claimed', valid, new, claimed, done) ↦
                let (r, there, admits, _, marked) =
                  (claim_iff now id (hash_token token) users invites claimed' u).0 claimed in
                let e = sym h ∙ done in
                (id, r, valid, new, there, admits, ap (λ p. p.0) e ∙ marked, ap (λ p. p.1) e)
          ],
    λ h.
        let (id, r, valid, new, there, admits, marked, entered) = h in
        redeem-success hash_token hash_password now user_id token canonical users users invites id
          invites' valid new
          ((claim_iff now id (hash_token token) users invites invites' u).1
            (r, there, admits, new, marked))
          new
        ∙ ap (λ s. (invites', s, ok tt)) (sym entered),
  )

  -- With the user store left alone by others, a refused redemption changes neither store.
  pub redeem_invite-err :
      (now : ℕ) (user_id token canonical : Text) (users : Users) (invites : Invites) (e : ErrorKind)
      → (redeem_invite hash_token hash_password now user_id token canonical users users users
          invites).2
        ≡ err e
      → redeem_invite hash_token hash_password now user_id token canonical users users users invites
        ≡ (invites, users, err e)
  redeem_invite-err now user_id token canonical users invites e h =
      elim (redeem-cases hash_token hash_password now user_id token canonical users users invites
        refl) [
          | inl (e', refused) ↦
              let same : e' ≡ e = ground arith in refused ∙ ap (λ k. (invites, users, err k)) same
          | inr (id, invites', _, _, _, done) ↦ absurd (ground arith)
        ]
