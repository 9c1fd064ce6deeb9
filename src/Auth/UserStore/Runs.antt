-- ===== src/Auth/UserStore/Runs.antt =====
-- The user store over a history of calls.
use picasu.Prelude.{◌≤◌, ◌≡◌, List, [], ◌∷◌, All, arith}
use picasu.Model.Text.{Text}
use picasu.Model.Text.Table.{HasKeys}
use picasu.Auth.Users.{UserRecord, Users}
use picasu.Auth.UserStore.{count, is_admin, is_enabled_admin}
use picasu.Auth.UserStore.Keeps.{
  HasOne, set_sharing_enabled-keeps, bump_ver-keeps, set_home-keeps, set_password-keeps,
  upgrade_password_hash-keeps, provision-keeps,
}
use picasu.Auth.UserStore.Admins.{
  Call, sets_admin, sets_disabled, sets_sharing, bumps, sets_home, deletes, provisions,
  sets_password, upgrades, step, run, Unforced, Mild, set_admin-keeps, set_disabled-keeps,
  delete_user-keeps, set_disabled-enabled, promote-enabled,
}
use picasu.Auth.UserStore.Keys.{
  set_admin-HasKeys, set_disabled-HasKeys, set_sharing_enabled-HasKeys, bump_ver-HasKeys,
  set_home-HasKeys, delete_user-HasKeys, set_password-HasKeys, upgrade_password_hash-HasKeys,
  provision-HasKeys,
}

admin_same :
    (r s : UserRecord) → r.admin ≡ s.admin → r.disabled ≡ s.disabled → is_admin r ≡ is_admin s
admin_same r s a d = a

enabled_same :
    (r s : UserRecord)
    → r.admin ≡ s.admin
    → r.disabled ≡ s.disabled
    → is_enabled_admin r ≡ is_enabled_admin s
enabled_same r s a d = ground arith

module _ (hash_password : Text → Text) where
  step-HasKeys : (users : Users) (c : Call) → HasKeys users → HasKeys (step hash_password users c)
  unfolding step
  step-HasKeys users (sets_admin id admin) u = set_admin-HasKeys users u id admin
  step-HasKeys users (sets_disabled id disabled) u = set_disabled-HasKeys users u id disabled
  step-HasKeys users (sets_sharing id enabled) u = set_sharing_enabled-HasKeys users u id enabled
  step-HasKeys users (bumps id) u = bump_ver-HasKeys users u id
  step-HasKeys users (sets_home id home) u = set_home-HasKeys users u id home
  step-HasKeys users (deletes id force) u = delete_user-HasKeys users u id force
  step-HasKeys users (provisions id canonical admin home) u =
      provision-HasKeys users u hash_password id canonical admin home
  step-HasKeys users (sets_password id password) u =
      set_password-HasKeys users u hash_password id password
  step-HasKeys users (upgrades id password) u =
      upgrade_password_hash-HasKeys users u hash_password id password

  step-admins :
      (users : Users) (c : Call)
      → HasKeys users
      → Unforced c
      → HasOne is_admin users
      → HasOne is_admin (step hash_password users c)
  unfolding step
  step-admins users (sets_admin id admin) u m h = set_admin-keeps id admin users h
  step-admins users (sets_disabled id disabled) u m h = set_disabled-keeps id disabled users h
  step-admins users (deletes id force) u m h = rw m (delete_user-keeps id users u h)
  step-admins users (sets_sharing id enabled) u m h =
      set_sharing_enabled-keeps is_admin admin_same users h id enabled
  step-admins users (bumps id) u m h = bump_ver-keeps is_admin admin_same users h id
  step-admins users (sets_home id home) u m h = set_home-keeps is_admin admin_same users h id home
  step-admins users (provisions id canonical admin home) u m h =
      provision-keeps is_admin admin_same users h hash_password id canonical admin home
  step-admins users (sets_password id password) u m h =
      set_password-keeps is_admin admin_same users h hash_password id password
  step-admins users (upgrades id password) u m h =
      upgrade_password_hash-keeps is_admin admin_same users h hash_password id password

  step-enabled :
      (users : Users) (c : Call)
      → HasKeys users
      → Mild c
      → HasOne is_enabled_admin users
      → HasOne is_enabled_admin (step hash_password users c)
  unfolding step
  step-enabled users (sets_admin id admin) u m h = rw m (promote-enabled id users h)
  step-enabled users (sets_disabled id disabled) u m h = set_disabled-enabled id disabled users h
  step-enabled users (deletes id force) u m h = absurd m
  step-enabled users (sets_sharing id enabled) u m h =
      set_sharing_enabled-keeps is_enabled_admin enabled_same users h id enabled
  step-enabled users (bumps id) u m h = bump_ver-keeps is_enabled_admin enabled_same users h id
  step-enabled users (sets_home id home) u m h =
      set_home-keeps is_enabled_admin enabled_same users h id home
  step-enabled users (provisions id canonical admin home) u m h =
      provision-keeps is_enabled_admin enabled_same users h hash_password id canonical admin home
  step-enabled users (sets_password id password) u m h =
      set_password-keeps is_enabled_admin enabled_same users h hash_password id password
  step-enabled users (upgrades id password) u m h =
      upgrade_password_hash-keeps is_enabled_admin enabled_same users h hash_password id password

  -- No history of calls with no forced deletion takes the last administrator: a store with one row for
  -- each user and an administrator has one row for each user and an administrator afterwards.
  pub run_keeps_admin :
      (users : Users) (cs : List Call)
      → HasKeys users
      → All Unforced cs
      → 1 ≤ count is_admin users
      → HasKeys (run hash_password users cs) × (1 ≤ count is_admin (run hash_password users cs))
  unfolding run
  run_keeps_admin users [] u m h = (u, h)
  run_keeps_admin users (c ∷ cs) u m h =
      run_keeps_admin (step hash_password users c) cs (step-HasKeys users c u) m.1
        (step-admins users c u m.0 h)

  -- No history of calls with no deletion and no demotion takes the last enabled administrator, whatever
  -- accounts are locked, unlocked, created or promoted.
  pub run_keeps_enabled_admin :
      (users : Users) (cs : List Call)
      → HasKeys users
      → All Mild cs
      → 1 ≤ count is_enabled_admin users
      → 1 ≤ count is_enabled_admin (run hash_password users cs)
  unfolding run
  run_keeps_enabled_admin users [] u m h = h
  run_keeps_enabled_admin users (c ∷ cs) u m h =
      run_keeps_enabled_admin (step hash_password users c) cs (step-HasKeys users c u) m.1
        (step-enabled users c u m.0 h)
