-- ===== src/Auth/UserStore/Tests.antt =====
-- A store with an enabled and a locked administrator.
use picasu.Prelude.{◌≤◌, ◌≡◌, refl, Bool, true, false, none, some, [], ◌∷◌, arith}
use picasu.Model.Text.{Text}
use picasu.Model.Text.Table.{find, HasKeys}
use picasu.Model.Text.Trim.{trim, trim_start, trim_end}
use picasu.Auth.Users.{ok, UserRecord, Users}
use picasu.Auth.UserStore.{count, is_admin, is_enabled_admin, set_admin, delete_user}
use picasu.Auth.UserStore.Admins.{sets_admin, sets_disabled, deletes, sets_password, lockout, run}
use picasu.Auth.UserStore.Runs.{run_keeps_admin, run_keeps_enabled_admin}

abbrev plain : Text → Text
plain t = t

abbrev ann : Text
ann = 97 ∷ 110 ∷ 110 ∷ []

abbrev bob : Text
bob = 98 ∷ 111 ∷ 98 ∷ []

abbrev admin_row : Bool → UserRecord
admin_row locked = record {
  hash = none;
  admin = true;
  home = none;
  ver = 3;
  disabled = locked;
  shares_enabled = true;
}

abbrev two_admins : Users
two_admins = (ann, admin_row false) ∷ (bob, admin_row true) ∷ []

two_admins-HasKeys : HasKeys two_admins
unfolding find
two_admins-HasKeys = (refl, (refl, tt))

two_count : count is_admin two_admins ≡ 2
unfolding count
two_count = refl

one_enabled : count is_enabled_admin two_admins ≡ 1
unfolding count
one_enabled = refl

ann_there : find (trim ann) two_admins ≡ some (admin_row false)
unfolding find trim trim_start trim_end
ann_there = refl

run_keeps_admin_example :
    HasKeys
      (run plain two_admins (sets_admin ann false ∷ sets_admin bob false ∷ deletes bob false ∷ []))
    × (1
        ≤ count is_admin (
            run plain two_admins
              (sets_admin ann false ∷ sets_admin bob false ∷ deletes bob false ∷ [])))
run_keeps_admin_example =
    run_keeps_admin plain two_admins
      (sets_admin ann false ∷ sets_admin bob false ∷ deletes bob false ∷ []) two_admins-HasKeys
      (tt, (tt, (refl, tt))) (omega (arith, two_count))

run_keeps_enabled_admin_example :
    1
    ≤ count is_enabled_admin
        (run plain two_admins (sets_disabled ann true ∷ sets_password bob ann ∷ []))
run_keeps_enabled_admin_example =
    run_keeps_enabled_admin plain two_admins (sets_disabled ann true ∷ sets_password bob ann ∷ [])
      two_admins-HasKeys (tt, (tt, tt)) (omega (arith, one_enabled))

lockout_example :
    ((set_admin ann false two_admins).1 ≡ ok true)
    × (count is_enabled_admin (set_admin ann false two_admins).0 ≡ 0)
    × ((delete_user ann false two_admins).1 ≡ ok true)
    × (count is_enabled_admin (delete_user ann false two_admins).0 ≡ 0)
lockout_example =
    lockout ann two_admins (admin_row false) two_admins-HasKeys ann_there refl one_enabled
      (omega (arith, two_count))

abbrev ann_row : UserRecord
ann_row = admin_row false
