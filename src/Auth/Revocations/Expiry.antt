-- ===== src/Auth/Revocations/Expiry.antt =====
-- How long a revocation holds.
use picasu.Prelude.{
  ℕ, ◌≤◌, ◌≡◌, refl, ap, ◌∙◌, Bool, false, Option, none, some, List, [], ◌∷◌, ltb, leb, map_or,
  if◌then◌else◌, All, arith,
}
use picasu.Model.Text.{Text, text_eq, has_text}
use picasu.Model.Text.Table.{
  find, insert, delete, HasKeys, find-insert, find-delete, insert-HasKeys, delete-HasKeys,
  text_eq_iff, text_eq_refl,
}
use picasu.Auth.Revocations.{Revocation, Revocations, expired, remove_all, revoke, is_revoked}

find-remove_all :
    (key : Text) (ids : List Text) (rows : Revocations)
    → find key (remove_all ids rows) ≡ (if has_text key ids then none else find key rows)
unfolding remove_all has_text
find-remove_all key [] rows = refl
find-remove_all key (id ∷ ids) rows = ground (
  arith,
  find-remove_all key ids (delete id rows),
  find-delete id key rows,
  text_eq_iff key id,
  text_eq_iff id key,
)

remove_all-HasKeys :
    (ids : List Text) (rows : Revocations) → HasKeys rows → HasKeys (remove_all ids rows)
unfolding remove_all
remove_all-HasKeys [] rows u = u
remove_all-HasKeys (id ∷ ids) rows u =
    remove_all-HasKeys ids (delete id rows) (delete-HasKeys id rows u)

abbrev is_over : ℕ → Option Revocation → Bool
is_over now o = map_or false (λ r. leb r.expires_at now) o

expired-absent :
    (now : ℕ) (key : Text) (rows : Revocations)
    → find key rows ≡ none
    → has_text key (expired now rows) ≡ false
unfolding expired find has_text
expired-absent now key [] h = refl
expired-absent now key ((id, r) ∷ rows) h =
    ground (arith, expired-absent now key rows, text_eq_iff key id, text_eq_iff id key)

expired-find :
    (now : ℕ) (key : Text) (rows : Revocations)
    → HasKeys rows
    → has_text key (expired now rows) ≡ is_over now (find key rows)
unfolding expired find has_text
expired-find now key [] u = refl
expired-find now key ((id, r) ∷ rows) u = ground (
  arith,
  expired-find now key rows u.1,
  expired-absent now key rows,
  text_eq_iff key id,
  text_eq_iff id key,
)

abbrev holds : ℕ → Option Revocation → Bool
holds later o = map_or false (λ r. ltb later r.expires_at) o

-- What is dropped by now does not hold later.
holds-dropped :
    (now later : ℕ) (o : Option Revocation)
    → now ≤ later
    → holds later (if is_over now o then none else o) ≡ holds later o
holds-dropped now later none after = refl
holds-dropped now later (some r) after = ground arith

find-purged :
    (now : ℕ) (key : Text) (rows : Revocations)
    → HasKeys rows
    → find key (remove_all (expired now rows) rows)
      ≡ (if is_over now (find key rows) then none else find key rows)
find-purged now key rows u =
    find-remove_all key (expired now rows) rows
    ∙ ap (λ b. if b then none else find key rows) (expired-find now key rows u)

revoke-other :
    (now later : ℕ) (key other : Text) (expires_at : ℕ) (rows : Revocations)
    → HasKeys rows
    → now ≤ later
    → text_eq other key ≡ false
    → is_revoked later key (revoke now other expires_at rows) ≡ is_revoked later key rows
unfolding revoke is_revoked
revoke-other now later key other expires_at rows u after differs =
    let kept = remove_all (expired now rows) rows in
    let r : Revocation = record { expires_at = expires_at } in
    let passed : find key (insert other r kept) ≡ find key kept =
      find-insert other key r kept ∙ ap (λ b. if b then some r else find key kept) differs in
    ap (holds later) (passed ∙ find-purged now key rows u)
    ∙ holds-dropped now later (find key rows) after

revoke-same :
    (now later : ℕ) (key : Text) (expires_at : ℕ) (rows : Revocations)
    → is_revoked later key (revoke now key expires_at rows) ≡ ltb later expires_at
unfolding revoke is_revoked
revoke-same now later key expires_at rows =
    let kept = remove_all (expired now rows) rows in
    let r : Revocation = record { expires_at = expires_at } in
    ap (holds later) (
      find-insert key key r kept ∙ ap (λ b. if b then some r else find key kept) (text_eq_refl key))

revoke-HasKeys :
    (now : ℕ) (key : Text) (expires_at : ℕ) (rows : Revocations)
    → HasKeys rows
    → HasKeys (revoke now key expires_at rows)
unfolding revoke
revoke-HasKeys now key expires_at rows u =
    insert-HasKeys key _ (remove_all (expired now rows) rows)
      (remove_all-HasKeys (expired now rows) rows u)

-- A call of `revoke`: the clock, the key and the expiry.
abbrev pub Call : Type 0
Call = ℕ × Text × ℕ

unfoldable pub revoke_each : List Call → Revocations → Revocations
revoke_each [] rows = rows
revoke_each ((now, key, expires_at) ∷ cs) rows = revoke_each cs (revoke now key expires_at rows)

revoke_each-others :
    (later : ℕ) (key : Text) (cs : List Call) (rows : Revocations)
    → HasKeys rows
    → All (λ c. (c.0 ≤ later) × (text_eq c.1 key ≡ false)) cs
    → is_revoked later key (revoke_each cs rows) ≡ is_revoked later key rows
unfolding revoke_each
revoke_each-others later key [] rows u all = refl
revoke_each-others later key ((now, other, expires_at) ∷ cs) rows u all =
    revoke_each-others later key cs (revoke now other expires_at rows)
      (revoke-HasKeys now other expires_at rows u) all.1
    ∙ revoke-other now later key other expires_at rows u all.0.0 all.0.1

-- A revocation holds until its expiry and no longer, whatever other keys are revoked in between: the
-- expired rows that each call drops never take one that is still needed. The clocks of the calls in
-- between are not past the time of the question.
pub revoked_until :
    (now later : ℕ) (key : Text) (expires_at : ℕ) (cs : List Call) (rows : Revocations)
    → HasKeys rows
    → All (λ c. (c.0 ≤ later) × (text_eq c.1 key ≡ false)) cs
    → is_revoked later key (revoke_each cs (revoke now key expires_at rows)) ≡ ltb later expires_at
revoked_until now later key expires_at cs rows u all =
    revoke_each-others later key cs (revoke now key expires_at rows)
      (revoke-HasKeys now key expires_at rows u) all
    ∙ revoke-same now later key expires_at rows
