-- ===== src/Auth/UserStore/Counts.antt =====
-- How a write changes the number of users of a kind.
use picasu.Prelude.{
  ℕ, ◌+◌, ◌≤◌, ◌≡◌, refl, Bool, true, Option, none, [], ◌∷◌, if◌then◌else◌, map_or, arith,
}
use picasu.Model.Text.{Text}
use picasu.Model.Text.Table.{find, insert, delete, HasKeys, text_eq_iff}
use picasu.Auth.Users.{UserRecord, Users}
use picasu.Auth.UserStore.{count}

abbrev pub one_if : Bool → ℕ
one_if b = if b then 1 else 0

-- What a looked-up row adds to a count.
abbrev pub share : (UserRecord → Bool) → Option UserRecord → ℕ
share p o = map_or 0 (λ r. one_if (p r)) o

pub count-insert :
    (p : UserRecord → Bool) (id : Text) (r : UserRecord) (users : Users)
    → count p (insert id r users) + share p (find id users) ≡ count p users + one_if (p r)
unfolding count insert find
count-insert p id r [] = omega arith
count-insert p id r ((j, s) ∷ users) = ground (arith, count-insert p id r users)

count-delete-absent :
    (p : UserRecord → Bool) (id : Text) (users : Users)
    → find id users ≡ none
    → count p (delete id users) ≡ count p users
unfolding count delete find
count-delete-absent p id [] h = refl
count-delete-absent p id ((j, s) ∷ users) h = ground (arith, count-delete-absent p id users)

pub count-delete :
    (p : UserRecord → Bool) (id : Text) (users : Users)
    → HasKeys users
    → count p (delete id users) + share p (find id users) ≡ count p users
unfolding count delete find
count-delete p id [] u = omega arith
count-delete p id ((j, s) ∷ users) u =
    ground (arith, text_eq_iff j id, count-delete-absent p id users, count-delete p id users u.1)

-- Who is found is counted.
pub share-le :
    (p : UserRecord → Bool) (id : Text) (users : Users) → share p (find id users) ≤ count p users
unfolding count find
share-le p id [] = omega arith
share-le p id ((j, s) ∷ users) = ground (arith, share-le p id users)

-- Where a kind includes another, its count is no less.
pub count-le :
    (p q : UserRecord → Bool)
    → ((r : UserRecord) → p r ≡ true → q r ≡ true)
    → (users : Users) → count p users ≤ count q users
unfolding count
count-le p q sub [] = omega arith
count-le p q sub ((j, s) ∷ users) = ground (arith, sub s, count-le p q sub users)
