-- ===== src/Auth/Invites/Tests.antt =====
-- An invite for one registration, with the identity for both hashes.
use picasu.Prelude.{ℕ, ◌≡◌, ◌≢◌, refl, ap, ◌↔◌, none, some, List, [], ◌∷◌}
use picasu.Model.Text.{Text}
use picasu.Model.Text.Table.{find, insert, HasKeys}
use picasu.Model.Text.Trim.{trim, trim_start, trim_end, len}
use picasu.Auth.Users.{ok, err, permission_denied, io, Users, validate_user_id}
use picasu.Auth.Invites.{
  InviteRecord, Invites, scan, claim, enter, new_user, create_invite_with_expiry, bound_user,
  redeem_invite,
}
use picasu.Auth.Invites.Claim.{Admits}
use picasu.Auth.Invites.Redeem.{redeem_invite_iff}
use picasu.Auth.Invites.Race.{IsOvertaken, redeem_invite_race}
use picasu.Auth.Invites.History.{Call, creates, revokes, run, redeemed_once}

abbrev plain : Text → Text
plain t = t

abbrev ann : Text
ann = 97 ∷ 110 ∷ 110 ∷ []

-- " ann"
abbrev spaced_ann : Text
spaced_ann = 32 ∷ ann

abbrev bob : Text
bob = 98 ∷ 111 ∷ 98 ∷ []

abbrev token : Text
token = 116 ∷ 49 ∷ []

abbrev other_token : Text
other_token = 116 ∷ 50 ∷ []

-- Made by bob, good before time 100.
abbrev invite : InviteRecord
invite = record {
  prefix = token;
  created_by = bob;
  expires_at = some 100;
  used_by = none;
  username = none;
}

abbrev table : Invites
table = (token, invite) ∷ []

abbrev used_table : Invites
used_table = (token, record invite { used_by = some ann }) ∷ []

abbrev ann_users : Users
ann_users = (ann, new_user plain plain ann) ∷ []

abbrev no_users : Users
no_users = []

table-HasKeys : HasKeys table
unfolding find
table-HasKeys = (refl, tt)

ann_redeems :
    redeem_invite plain plain 5 spaced_ann token ann [] [] [] table ≡ (used_table, ann_users, ok tt)
unfolding redeem_invite claim scan find insert enter validate_user_id trim trim_start trim_end len
ann_redeems = refl

redeemed : (redeem_invite plain plain 5 spaced_ann token ann [] [] [] table).2 ≡ ok tt
redeemed = ap (λ t. t.2) ann_redeems

late_refused :
    (redeem_invite plain plain 100 spaced_ann token ann [] [] [] table).2 ≡ err permission_denied
unfolding redeem_invite claim scan find validate_user_id trim trim_start trim_end len
late_refused = refl

bob_creates :
    create_invite_with_expiry plain plain token bob (some 100) none [] ≡ (table, ok (token, invite))
unfolding create_invite_with_expiry bound_user trim trim_start trim_end insert
bob_creates = refl

abbrev day : ℕ
day = 24

redeem_invite_iff_example :
    (redeem_invite plain plain 5 spaced_ann token ann [] [] [] table
      ≡ (used_table, ann_users, ok tt))
    ↔ ((id : Text) × (r : InviteRecord) × (validate_user_id spaced_ann ≡ ok id)
        × (find id no_users ≡ none)
        × (find token table ≡ some r)
        × Admits 5 id r
        × (used_table ≡ insert token (record r { used_by = some id }) table)
        × (ann_users ≡ insert id (new_user plain plain ann) []))
redeem_invite_iff_example =
    redeem_invite_iff plain plain 5 spaced_ann token ann [] table table-HasKeys used_table ann_users

abbrev history : List Call
history = revokes other_token ∷ creates other_token bob none none ∷ []

redeem_invite_race_example :
    (redeem_invite plain plain 5 spaced_ann token ann [] [] ann_users table
      ≡ (used_table, ann_users, err io))
    ↔ ((id : Text) × (row : InviteRecord) × IsOvertaken plain plain 5 spaced_ann token ann []
          ann_users table id row
        × (used_table ≡ insert token (record row { used_by = some id }) table)
        × (ann_users ≡ ann_users)
        × ((redeem_invite plain plain 9 bob token bob [] [] []
              (run plain plain used_table history)).2
            ≢ ok tt))
redeem_invite_race_example =
    redeem_invite_race plain plain 5 spaced_ann token ann [] ann_users table table-HasKeys history
      (tt, (refl, tt)) 9 bob bob [] [] [] used_table ann_users

-- The race in which ann is registered meanwhile.
ann_overtaken :
    redeem_invite plain plain 5 spaced_ann token ann [] [] ann_users table
    ≡ (used_table, ann_users, err io)
unfolding redeem_invite claim scan find insert enter validate_user_id trim trim_start trim_end len
ann_overtaken = refl

redeemed_once_example :
    (redeem_invite plain plain 9 bob token bob ann_users ann_users ann_users (
      run plain plain
        (redeem_invite plain plain 5 spaced_ann token ann [] [] [] table).0
        history)).2
    ≢ ok tt
redeemed_once_example =
    redeemed_once plain plain table 5 spaced_ann token ann [] [] [] table-HasKeys redeemed history
      (tt, (refl, tt)) 9 bob bob ann_users ann_users ann_users
