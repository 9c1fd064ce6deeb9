-- ===== src/Auth/Invites/Spent.antt =====
-- Rows of the table of invites that can be used no more.
use picasu.Prelude.{ℕ, ◌≡◌, refl, sym, ◌∙◌, true, false, some, Bool-cases, inl, inr, arith}
use picasu.Model.Text.{Text, text_eq}
use picasu.Model.Text.Table.{
  find, insert, delete, HasKeys, find-insert, find-delete, insert-HasKeys,
}
use picasu.Auth.Users.{ok, Users}
use picasu.Auth.Invites.{InviteRecord, Invites, claim, is_set}
use picasu.Auth.Invites.Claim.{claim_iff}

-- The row can be used no more: there is none, or it is marked.
abbrev pub Spent : Text → Invites → Type 0
Spent key invites = (r : InviteRecord) → find key invites ≡ some r → is_set r.used_by ≡ true

pub Spent-insert :
    (key candidate : Text) (r : InviteRecord) (invites : Invites)
    → (text_eq candidate key ≡ true → is_set r.used_by ≡ true)
    → (text_eq candidate key ≡ false → Spent key invites)
    → Spent key (insert candidate r invites)
Spent-insert key candidate r invites here there r' h =
    let e = sym (find-insert candidate key r invites) ∙ h in
    elim (Bool-cases (text_eq candidate key)) [
      | inl same ↦ let found : r ≡ r' = ground arith in rw (sym found) (here same)
      | inr other ↦ let found : find key invites ≡ some r' = ground arith in there other r' found
    ]

pub Spent-delete :
    (key id : Text) (invites : Invites)
    → (text_eq id key ≡ false → Spent key invites)
    → Spent key (delete id invites)
Spent-delete key id invites there r' h =
    let e = sym (find-delete id key invites) ∙ h in
    elim (Bool-cases (text_eq id key)) [
      | inl same ↦ absurd (ground arith)
      | inr other ↦ let found : find key invites ≡ some r' = ground arith in there other r' found
    ]

module _ (now : ℕ) (id candidate : Text) (users : Users) (invites invites' : Invites)
    (u : HasKeys invites) (claimed : claim now id candidate users invites ≡ ok invites') where
  pub claim-HasKeys : HasKeys invites'
  claim-HasKeys =
      let (r, _, _, _, e) = (claim_iff now id candidate users invites invites' u).0 claimed in
      rw e (insert-HasKeys candidate (record r { used_by = some id }) invites u)

  pub claim-Spent :
      (key : Text) → (text_eq candidate key ≡ false → Spent key invites) → Spent key invites'
  claim-Spent key there =
      let (r, _, _, _, e) = (claim_iff now id candidate users invites invites' u).0 claimed in
      rw e
        (Spent-insert key candidate (record r { used_by = some id }) invites (λ same. refl) there)

  pub claim-unspent : ¬ Spent candidate invites
  claim-unspent spent =
      let (r, there, admits, _, _) =
        (claim_iff now id candidate users invites invites' u).0 claimed in
      let used = spent r there in absurd (ground (arith, admits.1))
