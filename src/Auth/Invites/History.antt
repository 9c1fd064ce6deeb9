-- ===== src/Auth/Invites/History.antt =====
-- The table of invites over a history of calls.
use picasu.Prelude.{
  ℕ, ◌≡◌, ◌≢◌, refl, false, Option, none, List, [], ◌∷◌, All, Bool-cases, inl, inr, ◌⊎◌, arith,
}
use picasu.Model.Text.{Text, text_eq}
use picasu.Model.Text.Table.{
  find, insert, delete, HasKeys, insert-HasKeys, delete-HasKeys, text_eq_refl,
}
use picasu.Model.Text.Trim.{trim}
use picasu.Auth.Users.{Result-cases, ok, Users, validate_user_id, is_blank}
use picasu.Auth.Invites.Spent.{
  Spent, Spent-insert, Spent-delete, claim-HasKeys, claim-Spent, claim-unspent,
}
use picasu.Auth.Invites.{
  InviteRecord, Invites, claim, is_set, bound_user, prefix_len, take, create_invite_with_expiry,
  redeem_invite, revoke_invite,
}

-- A call with all that it reads: `redeems` has the clock and the three looks at the user store.
pub data Call : Type 0 where
  creates : (token created_by : Text) → Option ℕ → Option Text → Call
  revokes : Text → Call
  redeems : ℕ → (user_id token canonical : Text) → (before inside after : Users) → Call

module _ (hash_token hash_password : Text → Text) where
  unfoldable pub step : Invites → Call → Invites
  step invites (creates token created_by expires_at username) =
      (create_invite_with_expiry hash_token hash_password token created_by expires_at username
        invites).0
  step invites (revokes id) = (revoke_invite id invites).0
  step invites (redeems now user_id token canonical before inside after) =
      (redeem_invite hash_token hash_password now user_id token canonical before inside after
        invites).0

  unfoldable pub run : Invites → List Call → Invites
  run invites [] = invites
  run invites (c ∷ cs) = run (step invites c) cs

  -- The call makes no row under this key.
  abbrev pub Spares : Text → Call → Type 0
  Spares key (creates token created_by expires_at username) = text_eq (hash_token token) key ≡ false
  Spares key (revokes id) = Unit
  Spares key (redeems now user_id token canonical before inside after) = Unit

  -- A redemption is refused and leaves the table, or it claims a row.
  redeem-table :
      (now : ℕ) (user_id token canonical : Text) (before inside after : Users) (invites : Invites)
      → let r =
          redeem_invite hash_token hash_password now user_id token canonical before inside after
            invites in
        (((r.2 ≢ ok tt) × (r.0 ≡ invites))
          ⊎ ((id : Text) × (invites' : Invites) × (claim now id (hash_token token) inside invites
                ≡ ok invites')
              × (r.0 ≡ invites')))
  unfolding redeem_invite
  redeem-table now user_id token canonical before inside after invites =
      elim (Result-cases (validate_user_id user_id)) [
        | inr (e, invalid) ↦ inl (
          rw (invalid, redeem_invite) (λ h. absurd (ground arith)),
          rw (invalid, redeem_invite) refl,
        )
        | inl (id, valid) ↦ elim (Bool-cases (is_set (find id before))) [
          | inl known ↦ inl (
            rw (valid, known, redeem_invite) (λ h. absurd (ground arith)),
            rw (valid, known, redeem_invite) refl,
          )
          | inr new ↦ elim (Result-cases (claim now id (hash_token token) inside invites)) [
            | inr (e, refused) ↦ inl (
              rw (valid, new, refused, redeem_invite) (λ h. absurd (ground arith)),
              rw (valid, new, refused, redeem_invite) refl,
            )
            | inl (invites', claimed) ↦
                inr (id, invites', claimed, rw (valid, new, claimed, redeem_invite) refl)
          ]
        ]
      ]

  create-cases :
      (token created_by : Text) (expires_at : Option ℕ) (username : Option Text) (invites : Invites)
      → let r =
          create_invite_with_expiry hash_token hash_password token created_by expires_at username
            invites in
        ((r.0 ≡ invites) ⊎ ((v : InviteRecord) × (r.0 ≡ insert (hash_token token) v invites)))
  unfolding create_invite_with_expiry
  create-cases token created_by expires_at username invites =
      elim (Bool-cases (is_blank (trim created_by))) [
        | inl blank ↦ inl (rw (blank, create_invite_with_expiry) refl)
        | inr named ↦ elim (Result-cases (bound_user username)) [
          | inr (e, bad) ↦ inl (rw (named, bad, create_invite_with_expiry) refl)
          | inl (user, bound) ↦ inr (made user, rw (named, bound, create_invite_with_expiry) refl)
        ]
      ]
    where
      made : Option Text → InviteRecord
      made user = record {
        prefix = take prefix_len token;
        created_by = trim created_by;
        expires_at = expires_at;
        used_by = none;
        username = user;
      }

  step-HasKeys : (invites : Invites) (c : Call) → HasKeys invites → HasKeys (step invites c)
  unfolding step revoke_invite
  step-HasKeys invites (creates token created_by expires_at username) u =
      elim (create-cases token created_by expires_at username invites) [
        | inl same ↦ rw same u
        | inr (v, e) ↦ rw e (insert-HasKeys (hash_token token) v invites u)
      ]
  step-HasKeys invites (revokes id) u = delete-HasKeys id invites u
  step-HasKeys invites (redeems now user_id token canonical before inside after) u =
      elim (redeem-table now user_id token canonical before inside after invites) [
        | inl (_, same) ↦ rw same u
        | inr (id, invites', claimed, e) ↦
            rw e (claim-HasKeys now id (hash_token token) inside invites invites' u claimed)
      ]

  step-Spent :
      (key : Text) (invites : Invites) (c : Call)
      → HasKeys invites
      → Spares key c
      → Spent key invites
      → Spent key (step invites c)
  unfolding step revoke_invite
  step-Spent key invites (creates token created_by expires_at username) u spares spent =
      elim (create-cases token created_by expires_at username invites) [
        | inl same ↦ rw same spent
        | inr (v, e) ↦ rw e (
            Spent-insert key (hash_token token) v invites (λ h. absurd (ground arith)) (λ h. spent))
      ]
  step-Spent key invites (revokes id) u spares spent = Spent-delete key id invites (λ h. spent)
  step-Spent key invites (redeems now user_id token canonical before inside after) u spares spent =
      elim (redeem-table now user_id token canonical before inside after invites) [
        | inl (_, same) ↦ rw same spent
        | inr (id, invites', claimed, e) ↦ rw e (
            claim-Spent now id (hash_token token) inside invites invites' u claimed key
              (λ h. spent))
      ]

  pub run-Spent :
      (key : Text) (invites : Invites) (cs : List Call)
      → HasKeys invites
      → All (Spares key) cs
      → Spent key invites
      → HasKeys (run invites cs) × Spent key (run invites cs)
  unfolding run
  run-Spent key invites [] u spare spent = (u, spent)
  run-Spent key invites (c ∷ cs) u spare spent =
      run-Spent key (step invites c) cs (step-HasKeys invites c u) spare.1
        (step-Spent key invites c u spare.0 spent)

  pub Spent-refused :
      (invites : Invites) (now : ℕ) (user_id token canonical : Text) (before inside after : Users)
      → HasKeys invites
      → Spent (hash_token token) invites
      → (redeem_invite hash_token hash_password now user_id token canonical before inside after
          invites).2
        ≢ ok tt
  Spent-refused invites now user_id token canonical before inside after u spent =
      elim (redeem-table now user_id token canonical before inside after invites) [
        | inl (refused, _) ↦ refused
        | inr (id, invites', claimed, _) ↦
            absurd (claim-unspent now id (hash_token token) inside invites invites' u claimed spent)
      ]

  -- An invite is for one registration: after a redemption succeeded, no redemption of the same token
  -- succeeds, by whichever user and at whichever time, after any history of calls in which no creation
  -- draws a token of the same hash, and however others write the user store meanwhile.
  pub redeemed_once :
      (invites : Invites) (now : ℕ) (user_id token canonical : Text) (before inside after : Users)
      → HasKeys invites
      → (redeem_invite hash_token hash_password now user_id token canonical before inside after
          invites).2
        ≡ ok tt
      → (cs : List Call) → All (Spares (hash_token token)) cs
      → (later : ℕ) (other other_password : Text) (before' inside' after' : Users)
      → (redeem_invite hash_token hash_password later other token other_password before' inside'
          after'
          (run
            (redeem_invite hash_token hash_password now user_id token canonical before inside after
              invites).0
            cs)).2
        ≢ ok tt
  redeemed_once invites now user_id token canonical before inside after u done cs spare later other
        other_password before' inside' after' =
      elim (redeem-table now user_id token canonical before inside after invites) [
        | inl (refused, _) ↦ absurd (refused done)
        | inr (id, invites', claimed, e) ↦
            let key = hash_token token in
            let spent =
              claim-Spent now id key inside invites invites' u claimed key
                (λ h. absurd (ground (arith, text_eq_refl key))) in
            let keys = claim-HasKeys now id key inside invites invites' u claimed in
            let (keys', spent') = run-Spent key invites' cs keys spare spent in
            rw e (
              Spent-refused (run invites' cs) later other token other_password before' inside'
                after' keys' spent')
      ]

  -- A revoked invite is dead: no redemption of its token succeeds after any history of calls in which
  -- no creation draws a token of the same hash.
  pub revoked_dead :
      (invites : Invites) (token : Text) (cs : List Call)
      → HasKeys invites
      → All (Spares (hash_token token)) cs
      → (now : ℕ) (user_id canonical : Text) (before inside after : Users)
      → (redeem_invite hash_token hash_password now user_id token canonical before inside after
          (run (revoke_invite (hash_token token) invites).0 cs)).2
        ≢ ok tt
  unfolding revoke_invite
  revoked_dead invites token cs u spare now user_id canonical before inside after =
      let key = hash_token token in
      let gone = Spent-delete key key invites (λ h. absurd (ground (arith, text_eq_refl key))) in
      let (keys', spent') =
        run-Spent key (delete key invites) cs (delete-HasKeys key invites u) spare gone in
      Spent-refused (run (delete key invites) cs) now user_id token canonical before inside after
        keys' spent'
