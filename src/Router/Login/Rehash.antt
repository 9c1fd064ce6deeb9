-- ===== src/Router/Login/Rehash.antt =====
-- backend/src/auth/user_store.rs: the upgrade of an old hash, which a sign-in writes after it has read the
-- store (backend/src/router/post/users_authenticate.rs), and a password change between the two.
use picasu.Prelude.{◌≡◌, ap, ◌∙◌, Bool, true, false, some, if◌then◌else◌}
use picasu.Model.Text.{Text, starts_with}
use picasu.Model.Text.Table.{find, insert, find-insert, text_eq_refl}
use picasu.Model.Text.Trim.{trim}
use picasu.Model.Text.TrimLaws.{trim-twice}
use picasu.Auth.Users.{UserRecord, Users}
use picasu.Auth.UserStore.{set_password, upgrade_password_hash, next_ver}
use picasu.Router.Shares.{argon_prefix}
use picasu.Router.Login.{verify, upgrade}

find-written : (id : Text) (r : UserRecord) (users : Users) → find id (insert id r users) ≡ some r
find-written id r users =
    find-insert id id r users ∙ ap (λ b. if b then some r else find id users) (text_eq_refl id)

module _ (verify_password : Text → Text → Bool) (hash_password : Text → Text) (id : Text)
    (users : Users) (r : UserRecord) (found : find (trim id) users ≡ some r) where
  changed :
      (password : Text)
      → find (trim id) (set_password hash_password id password users).0
        ≡ some (record r { hash = some (hash_password (trim password)); ver = next_ver r.ver })
  unfolding set_password
  changed password = rw (found, set_password) (find-written (trim id) _ users)

  -- The row after a password change between the read and the write of a sign-in with the old password.
  reverted :
      (stored old fresh : Text)
      → r.hash ≡ some stored
      → verify_password old stored ≡ true
      → starts_with stored argon_prefix ≡ false
      → find (trim id) (
          upgrade verify_password hash_password users id old
            (set_password hash_password id fresh users).0)
        ≡ some (record r { hash = some (hash_password (trim (trim old))); ver = next_ver r.ver })
  unfolding upgrade upgrade_password_hash
  reverted stored old fresh has good legacy =
      let row = changed fresh in
      let there : find (trim (trim id)) (set_password hash_password id fresh users).0
          ≡ some (record r { hash = some (hash_password (trim fresh)); ver = next_ver r.ver }) =
        rw (trim-twice id) row in
      rw (found, has, good, legacy, there, trim-twice id, upgrade, upgrade_password_hash)
        (find-written (trim id) _ (set_password hash_password id fresh users).0)

  -- A password change that falls between the check and the rewrite of a sign-in is lost, when the stored
  -- hash is not yet an argon2id one: afterwards the old password opens the account again and the new one
  -- does not, although the change has been acknowledged. (A password verifies against its own hash, and
  -- the new one does not verify against the old one's.)
  pub rehash_reverts :
      (stored old fresh : Text)
      → r.hash ≡ some stored
      → verify_password old stored ≡ true
      → starts_with stored argon_prefix ≡ false
      → trim old ≡ old
      → verify_password old (hash_password old) ≡ true
      → verify_password fresh (hash_password old) ≡ false
      → (verify verify_password
            (upgrade verify_password hash_password users id old
              (set_password hash_password id fresh users).0)
            id
            old
          ≡ true)
        × (verify verify_password
              (upgrade verify_password hash_password users id old
                (set_password hash_password id fresh users).0)
              id
              fresh
            ≡ false)
  unfolding verify
  rehash_reverts stored old fresh has good legacy canonical round apart =
      let row = reverted stored old fresh has good legacy in
      (rw (row, canonical, canonical) round, rw (row, canonical, canonical) apart)
