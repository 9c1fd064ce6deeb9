-- ===== src/Auth/Invites/Lifecycle.antt =====
-- From the creation of an invite to its redemption.
use picasu.Prelude.{
  ℕ, ◌<◌, ◌≡◌, refl, sym, ap, ◌∙◌, false, Option, none, some, Bool-cases, inl, inr, arith,
}
use picasu.Model.Text.{Text}
use picasu.Model.Text.Table.{find, insert, HasKeys, find-insert, insert-HasKeys, text_eq_refl}
use picasu.Model.Text.Trim.{trim}
use picasu.Auth.Users.{Result-cases, ok, Users, validate_user_id, is_blank}
use picasu.Auth.Invites.{
  InviteRecord, Invites, bound_to_other, bound_user, create_invite_with_expiry, redeem_invite, take,
  prefix_len,
}
use picasu.Auth.Invites.Claim.{claim_iff}
use picasu.Auth.Invites.Redeem.{redeem-success}

module _ (hash_token hash_password : Text → Text) where
  -- What a successful creation has done.
  create-ok :
      (token token' created_by : Text) (expires_at : Option ℕ) (username : Option Text)
      (invites invites' : Invites) (r : InviteRecord)
      → create_invite_with_expiry hash_token hash_password token created_by expires_at username
          invites
        ≡ (invites', ok (token', r))
      → (invites' ≡ insert (hash_token token) r invites)
        × (token' ≡ token)
        × (r.used_by ≡ none)
        × (r.expires_at ≡ expires_at)
  unfolding create_invite_with_expiry
  create-ok token token' created_by expires_at username invites invites' r h =
      elim (Bool-cases (is_blank (trim created_by))) [
        | inl blank ↦ absurd (ground arith)
        | inr named ↦ elim (Result-cases (bound_user username)) [
          | inr (e, bad) ↦ absurd (ground arith)
          | inl (user, bound) ↦
              let done : create_invite_with_expiry hash_token hash_password token created_by
                    expires_at username invites
                  ≡ (insert (hash_token token) (made user) invites, ok (token, made user)) =
                rw (named, bound, create_invite_with_expiry) refl in
              let e = sym done ∙ h in
              let same : made user ≡ r = ground arith in
              let token_same : token' ≡ token = ground arith in
              let table : invites' ≡ insert (hash_token token) (made user) invites = ground arith in
              (
                table ∙ ap (λ q. insert (hash_token token) q invites) same,
                token_same,
                sym (ap (λ q. q.used_by) same),
                sym (ap (λ q. q.expires_at) same),
              )
        ]
      ]
    where
      made : Option Text → InviteRecord
      made user = record {
        prefix = take prefix_len token;
        created_by = trim created_by;
        expires_at = expires_at;
        used_by = none;
        username = user;
      }

  -- An invite that was created opens the way: the token that its creator is given registers a valid and
  -- new user id, if the invite is bound to nobody else and its deadline has not come.
  pub create-redeem :
      (token token' created_by : Text) (expires_at : Option ℕ) (username : Option Text)
      (invites invites' : Invites) (r : InviteRecord)
      → HasKeys invites
      → create_invite_with_expiry hash_token hash_password token created_by expires_at username
          invites
        ≡ (invites', ok (token', r))
      → (now : ℕ) (user_id id canonical : Text) (users : Users) → validate_user_id user_id ≡ ok id
      → find id users ≡ none
      → bound_to_other id r.username ≡ false
      → ((deadline : ℕ) → expires_at ≡ some deadline → now < deadline)
      → (redeem_invite hash_token hash_password now user_id token' canonical users users users
          invites').2
        ≡ ok tt
  create-redeem token token' created_by expires_at username invites invites' r u created now user_id
        id canonical users valid new free timely =
      let (table, same, unused, deadline) =
        create-ok token token' created_by expires_at username invites invites' r created in
      let key = hash_token token' in
      let there : find key invites' ≡ some r = rw table (
        find-insert (hash_token token) key r invites
        ∙ ground (arith, text_eq_refl (hash_token token))) in
      let keys : HasKeys invites' = rw table (insert-HasKeys (hash_token token) r invites u) in
      let claimed =
        (claim_iff now id key users invites' (insert key (record r { used_by = some id }) invites')
            keys).1
          (r, there, (free, unused, λ d e. timely d (sym deadline ∙ e)), new, refl) in
      ap (λ t. t.2)
        (redeem-success hash_token hash_password now user_id token' canonical users users invites'
          id _ valid new claimed new)
