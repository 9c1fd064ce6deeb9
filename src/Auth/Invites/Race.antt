-- ===== src/Auth/Invites/Race.antt =====
-- backend/src/auth/invites.rs: a redemption that loses the user id to another registration between its
-- transaction and its last write.
use picasu.Prelude.{
  ℕ, ◌≡◌, ◌≢◌, ◌↔◌, sym, ap, ap₂, ◌∙◌, refl, true, none, some, List, All, Bool-cases, Option-cases,
  inl, inr, arith,
}
use picasu.Model.Text.{Text}
use picasu.Model.Text.Table.{find, insert, HasKeys, text_eq_refl}
use picasu.Auth.Users.{Result, Result-cases, io, ok, err, UserRecord, Users, validate_user_id}
use picasu.Auth.Invites.{InviteRecord, Invites, scan, claim, is_set, redeem_invite}
use picasu.Auth.Invites.Claim.{Admits, is_set-none, claim_iff}
use picasu.Auth.Invites.Spent.{claim-HasKeys, claim-Spent}
use picasu.Auth.Invites.Redeem.{
  redeem-invalid, redeem-known, redeem-refused, redeem-race, redeem-success,
}
use picasu.Auth.Invites.History.{Call, Spares, run, run-Spent, Spent-refused}

validate-io : (user_id : Text) → validate_user_id user_id ≢ err io
unfolding validate_user_id
validate-io user_id h = absurd (ground arith)

claim-io :
    (now : ℕ) (id candidate : Text) (users : Users) (invites : Invites)
    → claim now id candidate users invites ≢ err io
unfolding claim
claim-io now id candidate users invites h = elim (Option-cases (scan candidate invites none)) [
  | inl missing ↦ absurd (ground arith)
  | inr (r, there) ↦ absurd (ground arith)
]

module _ (hash_token hash_password : Text → Text) (now : ℕ) (user_id token canonical : Text)
    (users after : Users) (invites : Invites) where
  abbrev outcome : Invites × Users × Result Unit
  outcome =
      redeem_invite hash_token hash_password now user_id token canonical users users after invites

  -- Another registration took the user id: the invite admitted the user, who was new at the transaction
  -- and is in the store at the last write.
  abbrev pub IsOvertaken : Text → InviteRecord → Type 0
  IsOvertaken id r =
      (validate_user_id user_id ≡ ok id)
      × (find id users ≡ none)
      × (find (hash_token token) invites ≡ some r)
      × Admits now id r
      × ((other : UserRecord) × (find id after ≡ some other))

  -- The refusal with an I/O error, step by step.
  io-claimed :
      outcome.2 ≡ err io
      → (id : Text) × (invites' : Invites) × (validate_user_id user_id ≡ ok id)
        × (find id users ≡ none)
        × (claim now id (hash_token token) users invites ≡ ok invites')
        × ((other : UserRecord) × (find id after ≡ some other))
        × (outcome ≡ (invites', after, err io))
  io-claimed h = elim (Result-cases (validate_user_id user_id)) [
    | inr (e, invalid) ↦
        let done =
          redeem-invalid hash_token hash_password now user_id token canonical users after invites e
            invalid in
        let same : e ≡ io = ground arith in absurd (validate-io user_id (invalid ∙ ap err same))
    | inl (id, valid) ↦ elim (Bool-cases (is_set (find id users))) [
      | inl known ↦
          let done =
            redeem-known hash_token hash_password now user_id token canonical users after invites id
              valid known in
          absurd (ground arith)
      | inr unknown ↦
          let new = (is_set-none (find id users)).0 unknown in
          elim (Result-cases (claim now id (hash_token token) users invites)) [
            | inr (e, refused) ↦
                let done =
                  redeem-refused hash_token hash_password now user_id token canonical users after
                    invites id e valid new refused in
                let same : e ≡ io = ground arith in
                absurd (claim-io now id (hash_token token) users invites (refused ∙ ap err same))
            | inl (invites', claimed) ↦ elim (Option-cases (find id after)) [
              | inl free ↦
                  let done =
                    redeem-success hash_token hash_password now user_id token canonical users after
                      invites id invites' valid new claimed free in
                  absurd (ground arith)
              | inr (other, taken) ↦
                  let there : is_set (find id after) ≡ true = rw taken refl in
                  (
                    id,
                    invites',
                    valid,
                    new,
                    claimed,
                    (other, taken),
                    redeem-race hash_token hash_password now user_id token canonical users after
                        invites id invites' valid new claimed there,
                  )
            ]
          ]
    ]
  ]

module _ (hash_token hash_password : Text → Text) where
  overtaken-refused :
      (now : ℕ) (user_id token canonical : Text) (users after : Users) (invites : Invites)
      → HasKeys invites
      → (id : Text) (row : InviteRecord)
      → IsOvertaken hash_token hash_password now user_id token canonical users after invites id row
      → redeem_invite hash_token hash_password now user_id token canonical users users after invites
        ≡ (insert (hash_token token) (record row { used_by = some id }) invites, after, err io)
  overtaken-refused now user_id token canonical users after invites u id row
        (valid, new, there, admits, (other, taken)) =
      let claimed =
        (claim_iff now id (hash_token token) users invites _ u).1 (row, there, admits, new, refl) in
      redeem-race hash_token hash_password now user_id token canonical users after invites id _
        valid new claimed (rw taken refl)

  -- The row that a claim marked admits nobody any more.
  marked-dead :
      (now : ℕ) (id token : Text) (users : Users) (invites invites' : Invites)
      → HasKeys invites
      → claim now id (hash_token token) users invites ≡ ok invites'
      → (cs : List Call) → All (Spares hash_token hash_password (hash_token token)) cs
      → (later : ℕ) (other_id password : Text) (before' inside' after' : Users)
      → (redeem_invite hash_token hash_password later other_id token password before' inside' after'
          (run hash_token hash_password invites' cs)).2
        ≢ ok tt
  marked-dead now id token users invites invites' u claimed cs spare later other_id password before'
        inside' after' =
      let key = hash_token token in
      let spent =
        claim-Spent now id key users invites invites' u claimed key
          (λ h. absurd (ground (arith, text_eq_refl key))) in
      let keys = claim-HasKeys now id key users invites invites' u claimed in
      let (keys', spent') = run-Spent hash_token hash_password key invites' cs keys spare spent in
      Spent-refused hash_token hash_password (run hash_token hash_password invites' cs) later
        other_id token password before' inside' after' keys' spent'

  -- A redemption ends with an I/O error exactly if the invite admitted the user, who was new at the
  -- transaction, and another registration took the user id before the last write. Then the other's entry
  -- stays, the invite is marked used by the user, and no redemption of its token succeeds any more, after
  -- any history of calls in which no creation draws a token of the same hash. (The rows of the table have
  -- distinct keys.)
  pub redeem_invite_race :
      (now : ℕ) (user_id token canonical : Text) (users after : Users) (invites : Invites)
      → HasKeys invites
      → (cs : List Call) → All (Spares hash_token hash_password (hash_token token)) cs
      → (later : ℕ) (other_id password : Text) (before' inside' after' : Users)
      → (invites' : Invites) (users' : Users)
      → (redeem_invite hash_token hash_password now user_id token canonical users users after
            invites
          ≡ (invites', users', err io))
        ↔ ((id : Text) × (row : InviteRecord) × IsOvertaken hash_token hash_password now user_id
              token canonical users after invites id row
            × (invites' ≡ insert (hash_token token) (record row { used_by = some id }) invites)
            × (users' ≡ after)
            × ((redeem_invite hash_token hash_password later other_id token password before' inside'
                  after'
                  (run hash_token hash_password invites' cs)).2
                ≢ ok tt))
  redeem_invite_race now user_id token canonical users after invites u cs spare later other_id
        password before' inside' after' invites' users' =
      (
        λ h.
            let (id, claimed', valid, new, claimed, taken, done) =
              io-claimed hash_token hash_password now user_id token canonical users after invites
                (ap (λ p. p.2) h) in
            let (row, there, admits, _, marked) =
              (claim_iff now id (hash_token token) users invites claimed' u).0 claimed in
            let same : invites' ≡ claimed' = ap (λ p. p.0) (sym h ∙ done) in
            (
              id,
              row,
              (valid, new, there, admits, taken),
              same ∙ marked,
              ap (λ p. p.1) (sym h ∙ done),
              marked-dead now id token users invites invites' u (rw same claimed) cs spare later
                  other_id password before' inside' after',
            ),
        λ (id, row, o, marked, kept, _).
            overtaken-refused now user_id token canonical users after invites u id row o
            ∙ ap₂ (λ i s. (i, s, err io)) (sym marked) (sym kept),
      )
