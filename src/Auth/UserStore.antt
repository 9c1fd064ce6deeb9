-- ===== src/Auth/UserStore.antt =====
-- backend/src/auth/user_store.rs: the writes of the user store. Each is one read-modify-write, which
-- leaves the store as it was when its closure answers an error. Reads and writes of the file succeed.
pub mod Counts
pub mod Keeps
pub mod Admins
pub mod Keys
pub mod Runs
pub mod Tokens
mod Tests
use picasu.Prelude.{
  ℕ, ◌+◌, ◌%◌, ◌^◌, Bool, true, false, not, ◌&&◌, Option, none, some, List, [], ◌∷◌, leb,
  if◌then◌else◌,
}
use picasu.Model.Text.{Text, bool_eq, option_eq}
use picasu.Model.Text.Table.{find, insert, delete}
use picasu.Model.Text.Trim.{trim}
use picasu.Auth.Users.{not_found, conflict, Result, ok, err, UserRecord, Users, validate_user_id}

-- `users.values().filter(p).count()`
unfoldable pub count : (UserRecord → Bool) → Users → ℕ
count p [] = 0
count p ((id, r) ∷ users) = (if p r then 1 else 0) + count p users

abbrev pub is_admin : UserRecord → Bool
is_admin r = r.admin

abbrev pub is_enabled_admin : UserRecord → Bool
is_enabled_admin r = r.admin && not r.disabled

-- `ver.wrapping_add(1)` of a `u64`
abbrev pub next_ver : ℕ → ℕ
next_ver ver = (ver + 1) % 2 ^ 64

unfoldable pub set_admin : Text → Bool → Users → Users × Result Bool
set_admin id admin users =
    let target = trim id in
    elim (find target users) [
      | none ↦ (users, err not_found)
      | some current ↦
          if bool_eq current.admin admin
          then (users, ok false)
          else if not admin && leb (count is_admin users) 1
          then (users, err conflict)
          else (
            insert target (record current { admin = admin; ver = next_ver current.ver }) users,
            ok true,
          )
    ]

unfoldable pub set_disabled : Text → Bool → Users → Users × Result Bool
set_disabled id disabled users =
    let target = trim id in
    elim (find target users) [
      | none ↦ (users, err not_found)
      | some current ↦
          if bool_eq current.disabled disabled
          then (users, ok false)
          else if disabled && current.admin && leb (count is_enabled_admin users) 1
          then (users, err conflict)
          else (
            insert target
                (record current {
                  disabled = disabled;
                  ver = if disabled then next_ver current.ver else current.ver;
                })
                users,
            ok true,
          )
    ]

unfoldable pub set_sharing_enabled : Text → Bool → Users → Users × Result Bool
set_sharing_enabled id enabled users =
    let target = trim id in
    elim (find target users) [
      | none ↦ (users, err not_found)
      | some current ↦
          if bool_eq current.shares_enabled enabled
          then (users, ok false)
          else (insert target (record current { shares_enabled = enabled }) users, ok true)
    ]

unfoldable pub bump_ver : Text → Users → Users × Result ℕ
bump_ver id users =
    let target = trim id in
    elim (find target users) [
      | none ↦ (users, err not_found)
      | some current ↦ (
        insert target (record current { ver = next_ver current.ver }) users,
        ok (next_ver current.ver),
      )
    ]

unfoldable pub set_home : Text → Option Text → Users → Users × Result Bool
set_home id home users =
    let target = trim id in
    elim (find target users) [
      | none ↦ (users, err not_found)
      | some current ↦
          if option_eq current.home home
          then (users, ok false)
          else (insert target (record current { home = home }) users, ok true)
    ]

-- `delete`
unfoldable pub delete_user : Text → Bool → Users → Users × Result Bool
delete_user id force users =
    let target = trim id in
    elim (find target users) [
      | none ↦ (users, ok false)
      | some current ↦
          if current.admin && not force && leb (count is_admin users) 1
          then (users, err conflict)
          else (delete target users, ok true)
    ]

-- `hash_password` is the password's argon2id string.
module _ (hash_password : Text → Text) where
  -- `canonical` is the answer of `validate_new_password`.
  unfoldable pub provision : Text → Result Text → Bool → Option Text → Users → Users × Result Text
  provision id canonical admin home users = elim (validate_user_id id) [
    | err e ↦ (users, err e)
    | ok id' ↦ elim canonical [
      | err e ↦ (users, err e)
      | ok password ↦ elim (find id' users) [
        | some r ↦ (users, err conflict)
        | none ↦ (
          insert id'
              (record {
                hash = some (hash_password password);
                admin = admin;
                home = home;
                ver = 0;
                disabled = false;
                shares_enabled = true;
              })
              users,
          ok id',
        )
      ]
    ]
  ]

  unfoldable pub set_password : Text → Text → Users → Users × Result Unit
  set_password id password users =
      let target = trim id in
      let hash = hash_password (trim password) in
      elim (find target users) [
        | some entry ↦ (
          insert target (record entry { hash = some hash; ver = next_ver entry.ver }) users,
          ok tt,
        )
        | none ↦ (
          insert target
              (record {
                hash = some hash;
                admin = false;
                home = none;
                ver = 1;
                disabled = false;
                shares_enabled = true;
              })
              users,
          ok tt,
        )
      ]

  unfoldable pub upgrade_password_hash : Text → Text → Users → Users × Result Unit
  upgrade_password_hash id password users =
      let target = trim id in
      elim (find target users) [
        | some entry ↦ (
          insert target (record entry { hash = some (hash_password (trim password)) }) users,
          ok tt,
        )
        | none ↦ (users, ok tt)
      ]
