-- ===== src/Auth/UserStore/Keeps.antt =====
-- Writes that leave a user of a kind.
use picasu.Prelude.{
  ◌≤◌, ◌≡◌, refl, sym, ap, Bool, false, Option, none, some, Option-cases, ◌⊎◌, inl, inr, arith,
}
use picasu.Model.Text.{Text}
use picasu.Model.Text.Table.{find, insert, delete, HasKeys}
use picasu.Model.Text.Trim.{trim}
use picasu.Auth.Users.{Result-cases, Result, UserRecord, Users, validate_user_id}
use picasu.Auth.UserStore.{
  count, next_ver, set_sharing_enabled, bump_ver, set_home, provision, set_password,
  upgrade_password_hash,
}
use picasu.Auth.UserStore.Counts.{one_if, share, count-insert, count-delete}

-- The number that stays above zero.
abbrev pub HasOne : (UserRecord → Bool) → Users → Type 0
HasOne p users = 1 ≤ count p users

-- A write keeps one, if the row written counts wherever the old one did, or another is left.
pub insert-keeps :
    (p : UserRecord → Bool) (id : Text) (current r : UserRecord) (users : Users)
    → find id users ≡ some current
    → (one_if (p current) ≤ one_if (p r)) ⊎ (2 ≤ count p users)
    → HasOne p users
    → HasOne p (insert id r users)
insert-keeps p id current r users found kept h =
    let e : share p (find id users) ≡ one_if (p current) = ap (share p) found in
    let counted = count-insert p id r users in ground (arith, e, counted)

pub new-keeps :
    (p : UserRecord → Bool) (id : Text) (r : UserRecord) (users : Users)
    → find id users ≡ none
    → HasOne p users
    → HasOne p (insert id r users)
new-keeps p id r users missing h =
    let e : share p (find id users) ≡ 0 = ap (share p) missing in
    omega (arith, e, count-insert p id r users)

pub delete-keeps :
    (p : UserRecord → Bool) (id : Text) (current : UserRecord) (users : Users)
    → HasKeys users
    → find id users ≡ some current
    → (p current ≡ false) ⊎ (2 ≤ count p users)
    → HasOne p users
    → HasOne p (delete id users)
delete-keeps p id current users u found kept h =
    let e : share p (find id users) ≡ one_if (p current) = ap (share p) found in
    let counted = count-delete p id users u in ground (arith, e, counted)

-- A kind that depends on the role and on the lock only.
module _ (p : UserRecord → Bool)
    (same : (r s : UserRecord) → r.admin ≡ s.admin → r.disabled ≡ s.disabled → p r ≡ p s)
    (users : Users) (h : HasOne p users) where
  as_before :
      (id : Text) (current r : UserRecord)
      → find id users ≡ some current
      → r.admin ≡ current.admin
      → r.disabled ≡ current.disabled
      → HasOne p (insert id r users)
  as_before id current r found a d =
      let e = ap one_if (same current r (sym a) (sym d)) in
      insert-keeps p id current r users found (inl (omega (arith, e))) h

  pub set_sharing_enabled-keeps :
      (id : Text) (enabled : Bool) → HasOne p (set_sharing_enabled id enabled users).0
  unfolding set_sharing_enabled
  set_sharing_enabled-keeps id enabled = elim (Option-cases (find (trim id) users)) [
    | inl missing ↦ rw (missing, set_sharing_enabled) h
    | inr (current, found) ↦
        let r = record current { shares_enabled = enabled } in
        let kept = as_before (trim id) current r found refl refl in
        rw (found, set_sharing_enabled) (ground (arith, kept))
  ]

  pub bump_ver-keeps : (id : Text) → HasOne p (bump_ver id users).0
  unfolding bump_ver
  bump_ver-keeps id = elim (Option-cases (find (trim id) users)) [
    | inl missing ↦ rw (missing, bump_ver) h
    | inr (current, found) ↦
        let r = record current { ver = next_ver current.ver } in
        rw (found, bump_ver) (as_before (trim id) current r found refl refl)
  ]

  pub set_home-keeps : (id : Text) (home : Option Text) → HasOne p (set_home id home users).0
  unfolding set_home
  set_home-keeps id home = elim (Option-cases (find (trim id) users)) [
    | inl missing ↦ rw (missing, set_home) h
    | inr (current, found) ↦
        let r = record current { home = home } in
        let kept = as_before (trim id) current r found refl refl in
        rw (found, set_home) (ground (arith, kept))
  ]

  module _ (hash_password : Text → Text) where
    pub set_password-keeps :
        (id password : Text) → HasOne p (set_password hash_password id password users).0
    unfolding set_password
    set_password-keeps id password = elim (Option-cases (find (trim id) users)) [
      | inl missing ↦ rw (missing, set_password) (new-keeps p (trim id) _ users missing h)
      | inr (current, found) ↦
          rw (found, set_password) (as_before (trim id) current _ found refl refl)
    ]

    pub upgrade_password_hash-keeps :
        (id password : Text) → HasOne p (upgrade_password_hash hash_password id password users).0
    unfolding upgrade_password_hash
    upgrade_password_hash-keeps id password = elim (Option-cases (find (trim id) users)) [
      | inl missing ↦ rw (missing, upgrade_password_hash) h
      | inr (current, found) ↦
          rw (found, upgrade_password_hash) (as_before (trim id) current _ found refl refl)
    ]

    pub provision-keeps :
        (id : Text) (canonical : Result Text) (admin : Bool) (home : Option Text)
        → HasOne p (provision hash_password id canonical admin home users).0
    unfolding provision
    provision-keeps id canonical admin home = elim (Result-cases (validate_user_id id)) [
      | inr (e, invalid) ↦ rw (invalid, provision) h
      | inl (id', valid) ↦ elim (Result-cases canonical) [
        | inr (e, weak) ↦ rw (valid, weak, provision) h
        | inl (password, strong) ↦ elim (Option-cases (find id' users)) [
          | inr (r, taken) ↦ rw (valid, strong, taken, provision) h
          | inl missing ↦ rw (valid, strong, missing, provision) (new-keeps p id' _ users missing h)
        ]
      ]
    ]
