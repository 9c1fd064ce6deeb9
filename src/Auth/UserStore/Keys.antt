-- ===== src/Auth/UserStore/Keys.antt =====
-- Every write keeps one row for each user.
use picasu.Prelude.{Bool, Option, if◌then◌else◌, Option-cases, inl, inr, arith}
use picasu.Model.Text.{Text}
use picasu.Model.Text.Table.{find, HasKeys, insert-HasKeys, delete-HasKeys}
use picasu.Model.Text.Trim.{trim}
use picasu.Auth.Users.{Result-cases, Result, Users, validate_user_id}
use picasu.Auth.UserStore.{
  next_ver, set_admin, set_disabled, set_sharing_enabled, bump_ver, set_home, delete_user,
  provision, set_password, upgrade_password_hash,
}

module _ (users : Users) (u : HasKeys users) where
  pub set_admin-HasKeys : (id : Text) (admin : Bool) → HasKeys (set_admin id admin users).0
  unfolding set_admin
  set_admin-HasKeys id admin = elim (Option-cases (find (trim id) users)) [
    | inl missing ↦ rw (missing, set_admin) u
    | inr (current, found) ↦
        let written =
          insert-HasKeys (trim id) (record current { admin = admin; ver = next_ver current.ver })
            users u in
        rw (found, set_admin) (ground (arith, written))
  ]

  pub set_disabled-HasKeys :
      (id : Text) (disabled : Bool) → HasKeys (set_disabled id disabled users).0
  unfolding set_disabled
  set_disabled-HasKeys id disabled = elim (Option-cases (find (trim id) users)) [
    | inl missing ↦ rw (missing, set_disabled) u
    | inr (current, found) ↦
        let written =
          insert-HasKeys (trim id)
            (record current {
              disabled = disabled;
              ver = if disabled then next_ver current.ver else current.ver;
            })
            users u in
        rw (found, set_disabled) (ground (arith, written))
  ]

  pub set_sharing_enabled-HasKeys :
      (id : Text) (enabled : Bool) → HasKeys (set_sharing_enabled id enabled users).0
  unfolding set_sharing_enabled
  set_sharing_enabled-HasKeys id enabled = elim (Option-cases (find (trim id) users)) [
    | inl missing ↦ rw (missing, set_sharing_enabled) u
    | inr (current, found) ↦
        let written =
          insert-HasKeys (trim id) (record current { shares_enabled = enabled }) users u in
        rw (found, set_sharing_enabled) (ground (arith, written))
  ]

  pub set_home-HasKeys : (id : Text) (home : Option Text) → HasKeys (set_home id home users).0
  unfolding set_home
  set_home-HasKeys id home = elim (Option-cases (find (trim id) users)) [
    | inl missing ↦ rw (missing, set_home) u
    | inr (current, found) ↦
        let written = insert-HasKeys (trim id) (record current { home = home }) users u in
        rw (found, set_home) (ground (arith, written))
  ]

  pub bump_ver-HasKeys : (id : Text) → HasKeys (bump_ver id users).0
  unfolding bump_ver
  bump_ver-HasKeys id = elim (Option-cases (find (trim id) users)) [
    | inl missing ↦ rw (missing, bump_ver) u
    | inr (current, found) ↦
        let written =
          insert-HasKeys (trim id) (record current { ver = next_ver current.ver }) users u in
        rw (found, bump_ver) (ground (arith, written))
  ]

  pub delete_user-HasKeys : (id : Text) (force : Bool) → HasKeys (delete_user id force users).0
  unfolding delete_user
  delete_user-HasKeys id force = elim (Option-cases (find (trim id) users)) [
    | inl missing ↦ rw (missing, delete_user) u
    | inr (current, found) ↦
        let written = delete-HasKeys (trim id) users u in
        rw (found, delete_user) (ground (arith, written))
  ]

  module _ (hash_password : Text → Text) where
    pub set_password-HasKeys :
        (id password : Text) → HasKeys (set_password hash_password id password users).0
    unfolding set_password
    set_password-HasKeys id password = elim (Option-cases (find (trim id) users)) [
      | inl missing ↦ rw (missing, set_password) (insert-HasKeys (trim id) _ users u)
      | inr (current, found) ↦ rw (found, set_password) (insert-HasKeys (trim id) _ users u)
    ]

    pub upgrade_password_hash-HasKeys :
        (id password : Text) → HasKeys (upgrade_password_hash hash_password id password users).0
    unfolding upgrade_password_hash
    upgrade_password_hash-HasKeys id password = elim (Option-cases (find (trim id) users)) [
      | inl missing ↦ rw (missing, upgrade_password_hash) u
      | inr (current, found) ↦
          rw (found, upgrade_password_hash) (insert-HasKeys (trim id) _ users u)
    ]

    pub provision-HasKeys :
        (id : Text) (canonical : Result Text) (admin : Bool) (home : Option Text)
        → HasKeys (provision hash_password id canonical admin home users).0
    unfolding provision
    provision-HasKeys id canonical admin home = elim (Result-cases (validate_user_id id)) [
      | inr (e, invalid) ↦ rw (invalid, provision) u
      | inl (id', valid) ↦ elim (Result-cases canonical) [
        | inr (e, weak) ↦ rw (valid, weak, provision) u
        | inl (password, strong) ↦ elim (Option-cases (find id' users)) [
          | inr (r, taken) ↦ rw (valid, strong, taken, provision) u
          | inl missing ↦ rw (valid, strong, missing, provision) (insert-HasKeys id' _ users u)
        ]
      ]
    ]
