-- ===== src/Auth/UserStore/Admins.antt =====
-- There is always an administrator, and when there is an enabled one.
use picasu.Prelude.{
  ◌≤◌, ◌≡◌, ap, ◌∙◌, Bool, true, false, Option, some, List, [], ◌∷◌, if◌then◌else◌, Option-cases,
  inl, inr, arith,
}
use picasu.Model.Text.{Text}
use picasu.Model.Text.Table.{find, HasKeys}
use picasu.Model.Text.Trim.{trim}
use picasu.Auth.Users.{Result, ok, UserRecord, Users}
use picasu.Auth.UserStore.{
  count, is_admin, is_enabled_admin, next_ver, set_admin, set_disabled, set_sharing_enabled,
  bump_ver, set_home, delete_user, provision, set_password, upgrade_password_hash,
}
use picasu.Auth.UserStore.Counts.{one_if, share, count-insert, count-delete}
use picasu.Auth.UserStore.Keeps.{HasOne, insert-keeps, delete-keeps}

-- A call with its arguments.
pub data Call : Type 0 where
  sets_admin sets_disabled sets_sharing : Text → Bool → Call
  bumps : Text → Call
  sets_home : Text → Option Text → Call
  deletes : Text → (force : Bool) → Call
  provisions : Text → Result Text → Bool → Option Text → Call
  sets_password upgrades : (id password : Text) → Call

-- A deletion is not forced.
abbrev pub Unforced : Call → Type 0
Unforced (deletes id force) = force ≡ false
Unforced _ = Unit

-- Neither a deletion nor a demotion.
abbrev pub Mild : Call → Type 0
Mild (deletes id force) = ⊥
Mild (sets_admin id admin) = admin ≡ true
Mild _ = Unit

module _ (hash_password : Text → Text) where
  unfoldable pub step : Users → Call → Users
  step users (sets_admin id admin) = (set_admin id admin users).0
  step users (sets_disabled id disabled) = (set_disabled id disabled users).0
  step users (sets_sharing id enabled) = (set_sharing_enabled id enabled users).0
  step users (bumps id) = (bump_ver id users).0
  step users (sets_home id home) = (set_home id home users).0
  step users (deletes id force) = (delete_user id force users).0
  step users (provisions id canonical admin home) =
      (provision hash_password id canonical admin home users).0
  step users (sets_password id password) = (set_password hash_password id password users).0
  step users (upgrades id password) = (upgrade_password_hash hash_password id password users).0

  unfoldable pub run : Users → List Call → Users
  run users [] = users
  run users (c ∷ cs) = run (step users c) cs

pub set_admin-keeps :
    (id : Text) (admin : Bool) (users : Users)
    → HasOne is_admin users
    → HasOne is_admin (set_admin id admin users).0
unfolding set_admin
set_admin-keeps id admin users h = elim (Option-cases (find (trim id) users)) [
  | inl missing ↦ rw (missing, set_admin) h
  | inr (current, found) ↦
      let r = record current { admin = admin; ver = next_ver current.ver } in
      let kept = insert-keeps is_admin (trim id) current r users found in
      rw (found, set_admin) (ground (arith, kept))
]

pub set_disabled-keeps :
    (id : Text) (disabled : Bool) (users : Users)
    → HasOne is_admin users
    → HasOne is_admin (set_disabled id disabled users).0
unfolding set_disabled
set_disabled-keeps id disabled users h = elim (Option-cases (find (trim id) users)) [
  | inl missing ↦ rw (missing, set_disabled) h
  | inr (current, found) ↦
      let r = record current {
        disabled = disabled;
        ver = if disabled then next_ver current.ver else current.ver;
      } in
      let kept = insert-keeps is_admin (trim id) current r users found (inl (omega arith)) h in
      rw (found, set_disabled) (ground (arith, kept))
]

pub delete_user-keeps :
    (id : Text) (users : Users)
    → HasKeys users
    → HasOne is_admin users
    → HasOne is_admin (delete_user id false users).0
unfolding delete_user
delete_user-keeps id users u h = elim (Option-cases (find (trim id) users)) [
  | inl missing ↦ rw (missing, delete_user) h
  | inr (current, found) ↦
      let kept = delete-keeps is_admin (trim id) current users u found in
      rw (found, delete_user) (ground (arith, kept))
]

pub set_disabled-enabled :
    (id : Text) (disabled : Bool) (users : Users)
    → HasOne is_enabled_admin users
    → HasOne is_enabled_admin (set_disabled id disabled users).0
unfolding set_disabled
set_disabled-enabled id disabled users h = elim (Option-cases (find (trim id) users)) [
  | inl missing ↦ rw (missing, set_disabled) h
  | inr (current, found) ↦
      let r = record current {
        disabled = disabled;
        ver = if disabled then next_ver current.ver else current.ver;
      } in
      let kept = insert-keeps is_enabled_admin (trim id) current r users found in
      rw (found, set_disabled) (ground (arith, kept))
]

pub promote-enabled :
    (id : Text) (users : Users)
    → HasOne is_enabled_admin users
    → HasOne is_enabled_admin (set_admin id true users).0
unfolding set_admin
promote-enabled id users h = elim (Option-cases (find (trim id) users)) [
  | inl missing ↦ rw (missing, set_admin) h
  | inr (current, found) ↦
      let r = record current { admin = true; ver = next_ver current.ver } in
      let kept = insert-keeps is_enabled_admin (trim id) current r users found in
      rw (found, set_admin) (ground (arith, kept))
]

-- If the only enabled administrator is demoted or deleted while a locked administrator exists, the call
-- succeeds and no enabled administrator is left: both calls count the locked ones too.
pub lockout :
    (id : Text) (users : Users) (current : UserRecord)
    → HasKeys users
    → find (trim id) users ≡ some current
    → is_enabled_admin current ≡ true
    → count is_enabled_admin users ≡ 1
    → 2 ≤ count is_admin users
    → ((set_admin id false users).1 ≡ ok true)
      × (count is_enabled_admin (set_admin id false users).0 ≡ 0)
      × ((delete_user id false users).1 ≡ ok true)
      × (count is_enabled_admin (delete_user id false users).0 ≡ 0)
unfolding set_admin delete_user
lockout id users current u found enabled one two =
    let r = record current { admin = false; ver = next_ver current.ver } in
    let e : share is_enabled_admin (find (trim id) users) ≡ 1 =
      ap (share is_enabled_admin) found ∙ ap one_if enabled in
    let demoted = count-insert is_enabled_admin (trim id) r users in
    let deleted = count-delete is_enabled_admin (trim id) users u in
    let admin : current.admin ≡ true = ground arith in
    (
      rw (found, set_admin) (ground arith),
      rw (found, set_admin) (ground (arith, e, demoted)),
      rw (found, delete_user) (ground arith),
      rw (found, delete_user) (ground (arith, e, deleted)),
    )
