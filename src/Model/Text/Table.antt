-- ===== src/Model/Text/Table.antt =====
-- Tables of the database and maps with text keys, as lists of rows in the order of iteration.
use picasu.Prelude.{
  ◌≡◌, refl, sym, ◌↔◌, true, Option, none, some, List, [], ◌∷◌, if◌then◌else◌, ap, ◌∙◌, arith,
}
use picasu.Model.Text.{Text, text_eq}

abbrev pub Table : Type 0 → Type 0
Table V = List (Text × V)

module _ {V : Type 0} where
  unfoldable pub find : Text → Table V → Option V
  find k [] = none
  find k ((j, v) ∷ m) = let rest = find k m in if text_eq j k then some v else rest

  unfoldable pub insert : Text → V → Table V → Table V
  insert k v [] = (k, v) ∷ []
  insert k v ((j, w) ∷ m) =
      let rest = insert k v m in if text_eq j k then (k, v) ∷ m else (j, w) ∷ rest

  unfoldable pub delete : Text → Table V → Table V
  delete k [] = []
  delete k ((j, v) ∷ m) = let rest = delete k m in if text_eq j k then rest else (j, v) ∷ rest

  -- No key has two rows.
  abbrev pub HasKeys : Table V → Type 0
  HasKeys [] = Unit
  HasKeys ((j, v) ∷ m) = (find j m ≡ none) × HasKeys m

pub text_eq_refl : (t : Text) → text_eq t t ≡ true
text_eq_refl [] = refl
text_eq_refl (c ∷ t) = ground (arith, text_eq_refl t)

pub text_eq_eq : (a b : Text) → text_eq a b ≡ true → a ≡ b
text_eq_eq [] [] h = refl
text_eq_eq [] (y ∷ b) h = absurd (ground arith)
text_eq_eq (x ∷ a) [] h = absurd (ground arith)
text_eq_eq (x ∷ a) (y ∷ b) h = ground (arith, text_eq_eq a b)

pub text_eq_iff : (a b : Text) → (text_eq a b ≡ true) ↔ (a ≡ b)
text_eq_iff a b = (text_eq_eq a b, λ e. ap (λ t. text_eq a t) (sym e) ∙ text_eq_refl a)

module _ {V : Type 0} where
  pub find-insert :
      (k j : Text) (v : V) (m : Table V)
      → find j (insert k v m) ≡ (if text_eq k j then some v else find j m)
  unfolding find insert
  find-insert k j v [] = refl
  find-insert k j v ((i, w) ∷ m) =
      ground (arith, text_eq_iff k j, text_eq_iff i k, text_eq_iff i j, find-insert k j v m)

  pub find-delete :
      (k j : Text) (m : Table V) → find j (delete k m) ≡ (if text_eq k j then none else find j m)
  unfolding find delete
  find-delete k j [] = ground arith
  find-delete k j ((i, w) ∷ m) =
      ground (arith, text_eq_iff k j, text_eq_iff i k, text_eq_iff i j, find-delete k j m)

  pub insert-HasKeys : (k : Text) (v : V) (m : Table V) → HasKeys m → HasKeys (insert k v m)
  unfolding insert find
  insert-HasKeys k v [] u = (refl, tt)
  insert-HasKeys k v ((i, w) ∷ m) u =
      ground
        (arith, text_eq_iff i k, text_eq_iff k i, find-insert k i v m, insert-HasKeys k v m u.1)

  pub delete-HasKeys : (k : Text) (m : Table V) → HasKeys m → HasKeys (delete k m)
  unfolding delete find
  delete-HasKeys k [] u = tt
  delete-HasKeys k ((i, w) ∷ m) u =
      ground (arith, text_eq_iff i k, text_eq_iff k i, find-delete k i m, delete-HasKeys k m u.1)
