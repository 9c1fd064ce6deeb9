-- ===== src/Auth/UserStore/Tokens.antt =====
-- Which writes invalidate the tokens of a user.
use picasu.Prelude.{ℕ, ◌^◌, ◌<◌, ◌≡◌, ◌≢◌, ap, ◌∙◌, Bool, true, false, Option, none, some, arith}
use picasu.Model.Text.{Text}
use picasu.Model.Text.Table.{find, insert, find-insert, text_eq_refl}
use picasu.Model.Text.Trim.{trim}
use picasu.Auth.Users.{ok, UserRecord, Users}
use picasu.Auth.UserStore.{
  next_ver, set_admin, set_disabled, set_sharing_enabled, bump_ver, set_home, set_password,
  upgrade_password_hash,
}

-- The token version of a user.
abbrev ver_of : Option UserRecord → Option ℕ
ver_of none = none
ver_of (some r) = some r.ver

abbrev pub version : Text → Users → Option ℕ
version id users = ver_of (find id users)

version-insert :
    (id : Text) (r : UserRecord) (users : Users) → version id (insert id r users) ≡ some r.ver
version-insert id r users =
    let found : find id (insert id r users) ≡ some r =
      find-insert id id r users ∙ ground (arith, text_eq_refl id) in
    ap ver_of found

next_ver-differs : (ver : ℕ) → ver < 2 ^ 64 → next_ver ver ≢ ver
next_ver-differs ver h e = absurd (omega (arith, e))

-- A change of the role, a lock, a new password and an explicit invalidation of a user who is in the
-- store, whose version is below 2^64, move the version on to another one, so the user's tokens die. An
-- unlock, a change of the sharing flag or of the home and the upgrade of a hash keep it.
pub token_versions :
    (hash_password : Text → Text) (id password : Text) (flag : Bool) (home : Option Text)
    (users : Users) (current : UserRecord)
    → find (trim id) users ≡ some current
    → current.ver < 2 ^ 64
    → (next_ver current.ver ≢ current.ver)
      × ((set_admin id flag users).1 ≡ ok true
          → version (trim id) (set_admin id flag users).0 ≡ some (next_ver current.ver))
      × ((set_disabled id true users).1 ≡ ok true
          → version (trim id) (set_disabled id true users).0 ≡ some (next_ver current.ver))
      × (version (trim id) (set_password hash_password id password users).0
          ≡ some (next_ver current.ver))
      × (version (trim id) (bump_ver id users).0 ≡ some (next_ver current.ver))
      × (version (trim id) (set_disabled id false users).0 ≡ some current.ver)
      × (version (trim id) (set_sharing_enabled id flag users).0 ≡ some current.ver)
      × (version (trim id) (set_home id home users).0 ≡ some current.ver)
      × (version (trim id) (upgrade_password_hash hash_password id password users).0
          ≡ some current.ver)
unfolding set_admin set_disabled set_sharing_enabled bump_ver set_home set_password
    upgrade_password_hash
token_versions hash_password id password flag home users current found word =
    let now : version (trim id) users ≡ some current.ver = ap ver_of found in
    let role =
      version-insert (trim id) (record current { admin = flag; ver = next_ver current.ver })
        users in
    let locked =
      version-insert (trim id) (record current { disabled = true; ver = next_ver current.ver })
        users in
    let unlocked = version-insert (trim id) (record current { disabled = false }) users in
    let sharing = version-insert (trim id) (record current { shares_enabled = flag }) users in
    let moved = version-insert (trim id) (record current { home = home }) users in
    (
      next_ver-differs current.ver word,
      rw (found, set_admin) (λ h. ground (arith, role)),
      rw (found, set_disabled) (λ h. ground (arith, locked)),
      rw (found, set_password) (version-insert (trim id) _ users),
      rw (found, bump_ver) (version-insert (trim id) _ users),
      rw (found, set_disabled) (ground (arith, now, unlocked)),
      rw (found, set_sharing_enabled) (ground (arith, now, sharing)),
      rw (found, set_home) (ground (arith, now, moved)),
      rw (found, upgrade_password_hash) (version-insert (trim id) _ users),
    )
