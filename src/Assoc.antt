-- ===== src/Assoc.antt =====
-- A `HashMap` with string keys as a list of entries. The map's iteration order is the order of the
-- list: what is proved for every list holds for every order.
pub mod Evict
use text.Mathlib.Text.{◌==◌}
use text.Mathlib.TextEquality.{eq_iff}
use mathlib.Core.Option
use picasu.Prelude.{
  ◌≤◌, ◌<◌, ◌≡◌, refl, String, Bool, Option, none, some, List, [], ◌∷◌, arith, length, inl, inr,
  Option-cases, if◌then◌else◌,
}

abbrev pub Assoc {ℓ} : Type ℓ → Type ℓ
Assoc V = List (String × V)

module _ {ℓ} {V : Type ℓ} where
  unfoldable pub get : String → Assoc V → Option V
  get k [] = none
  get k ((j, v) ∷ m) = if j == k then some v else get k m

  -- `map.insert(k, v)`, and the write through `get_mut` or `entry`
  unfoldable pub put : String → V → Assoc V → Assoc V
  put k v [] = (k, v) ∷ []
  put k v ((j, w) ∷ m) = if j == k then (k, v) ∷ m else (j, w) ∷ put k v m

  unfoldable pub remove : String → Assoc V → Assoc V
  remove k [] = []
  remove k ((j, v) ∷ m) = let rest = remove k m in if j == k then rest else (j, v) ∷ rest

  -- `if let Some(v) = map.get_mut(k) { *v = f(*v) }`
  unfoldable pub update : String → (V → V) → Assoc V → Assoc V
  update k f m = elim (get k m) [ none ↦ m | some v ↦ put k (f v) m ]

  -- `map.retain(|_, v| p(v))`
  unfoldable pub retain : (V → Bool) → Assoc V → Assoc V
  retain p [] = []
  retain p ((j, v) ∷ m) = let rest = retain p m in if p v then (j, v) ∷ rest else rest

  -- No key has two entries.
  abbrev pub Unique : Assoc V → Type ℓ
  Unique [] = Unit
  Unique ((j, v) ∷ m) = (get j m ≡ none) × Unique m

module _ {ℓ} {V : Type ℓ} where
  pub get-put :
      (k j : String) (v : V) (m : Assoc V)
      → get j (put k v m) ≡ (if k == j then some v else get j m)
  unfolding get put
  get-put k j v [] = refl
  get-put k j v ((i, w) ∷ m) = ground (arith, eq_iff k j, eq_iff i k, eq_iff i j, get-put k j v m)

  pub get-remove :
      (k j : String) (m : Assoc V) → get j (remove k m) ≡ (if k == j then none else get j m)
  unfolding get remove
  get-remove k j [] = ground arith
  get-remove k j ((i, w) ∷ m) = ground (arith, eq_iff k j, eq_iff i k, eq_iff i j, get-remove k j m)

  pub get-update :
      (k j : String) (f : V → V) (m : Assoc V)
      → get j (update k f m) ≡ (if k == j then Option.map f (get k m) else get j m)
  unfolding update
  get-update k j f m = elim (Option-cases (get k m)) [
    | inl e ↦ ground (arith, e, eq_iff k j)
    | inr (v, e) ↦ rw (e, update) (get-put k j (f v) m)
  ]

  pub get-retain-none :
      (p : V → Bool) (k : String) (m : Assoc V) → get k m ≡ none → get k (retain p m) ≡ none
  unfolding get retain
  get-retain-none p k [] h = refl
  get-retain-none p k ((j, v) ∷ m) h = ground (arith, get-retain-none p k m)

  abbrev kept : (V → Bool) → Option V → Option V
  kept p none = none
  kept p (some v) = if p v then some v else none

  pub get-retain :
      (p : V → Bool) (k : String) (m : Assoc V) → Unique m → get k (retain p m) ≡ kept p (get k m)
  unfolding get retain
  get-retain p k [] u = refl
  get-retain p k ((j, v) ∷ m) u =
      ground (arith, eq_iff j k, get-retain p k m u.1, get-retain-none p k m)

  pub put-Unique : (k : String) (v : V) (m : Assoc V) → Unique m → Unique (put k v m)
  unfolding put get
  put-Unique k v [] u = (refl, tt)
  put-Unique k v ((j, w) ∷ m) u =
      ground (arith, eq_iff j k, eq_iff k j, get-put k j v m, put-Unique k v m u.1)

  pub remove-Unique : (k : String) (m : Assoc V) → Unique m → Unique (remove k m)
  unfolding remove get
  remove-Unique k [] u = tt
  remove-Unique k ((j, w) ∷ m) u = ground (arith, get-remove k j m, remove-Unique k m u.1)

  pub retain-Unique : (p : V → Bool) (m : Assoc V) → Unique m → Unique (retain p m)
  unfolding retain
  retain-Unique p [] u = tt
  retain-Unique p ((j, w) ∷ m) u = ground (arith, get-retain-none p j m, retain-Unique p m u.1)

  pub length-remove-le : (k : String) (m : Assoc V) → length (remove k m) ≤ length m
  unfolding remove
  length-remove-le k [] = omega arith
  length-remove-le k ((j, w) ∷ m) = ground (arith, length-remove-le k m)

  pub length-remove-lt :
      (k : String) (v : V) (m : Assoc V) → get k m ≡ some v → length (remove k m) < length m
  unfolding remove get
  length-remove-lt k v [] h = absurd (ground arith)
  length-remove-lt k v ((j, w) ∷ m) h = ground (arith, length-remove-le k m, length-remove-lt k v m)
