-- ===== src/Assoc/Evict.antt =====
-- Eviction down to a cap: while the map is too large, the evictable entry with the least key goes.
use picasu.Prelude.{
  ℕ, zero, suc, ◌≤◌, ◌≡◌, refl, ◌⊎◌, inl, inr, String, Bool, true, false, Option, none, some, [],
  ◌∷◌, arith, length, leb, if◌then◌else◌, map_or, leb→le, Bool-cases, Option-cases,
}
use text.Mathlib.TextEquality.{eq_iff}
use picasu.Assoc.{
  Assoc, Unique, get, remove, retain, get-remove, get-retain, remove-Unique, length-remove-lt,
}

module _ {ℓ} {V : Type ℓ} (evictable : V → Bool) (seen : V → ℕ) where
  -- `iter().filter(evictable).min_by_key(seen)`: the first of the entries with the least key, where
  -- the key and its value are kept together.
  abbrev better : String → V → Option (String × V) → Option (String × V)
  better k v none = some (k, v)
  better k v (some (j, w)) = if leb (seen v) (seen w) then some (k, v) else some (j, w)

  unfoldable pub oldest : Assoc V → Option (String × V)
  oldest [] = none
  oldest ((k, v) ∷ m) = let rest = oldest m in if evictable v then better k v rest else rest

  -- `while map.len() > limit { let Some(oldest) = … else { break }; map.remove(&oldest); }`
  unfoldable pub evict : ℕ → ℕ → Assoc V → Assoc V
  unfolding oldest
  evict zero limit m = m
  evict (suc fuel) limit m =
      let next : Assoc V = elim (oldest m) [
        | none ↦ m
        | some (k, v) ↦ evict fuel limit (remove k m)
      ] in
      if leb (length m) limit then m else next

  oldest-entry :
      (m : Assoc V) (k : String) (v : V)
      → Unique m
      → oldest m ≡ some (k, v)
      → (get k m ≡ some v) × (evictable v ≡ true)
  unfolding oldest get
  oldest-entry [] k v u e = absurd (ground arith)
  oldest-entry ((j, w) ∷ m) k v u e = ground (arith, eq_iff j k, oldest-entry m k v u.1)

  -- One round of the loop.
  evict_cases {κ} :
      (P : Assoc V → Type κ) (fuel limit : ℕ) (m : Assoc V)
      → (length m ≤ limit → P m)
      → (oldest m ≡ none → P m)
      → ((k : String) (v : V) → oldest m ≡ some (k, v) → P (evict fuel limit (remove k m)))
      → P (evict (suc fuel) limit m)
  unfolding evict
  evict_cases P fuel limit m within stuck next = elim (Bool-cases (leb (length m) limit)) [
    | inl e ↦ rw e (within (leb→le _ _ e))
    | inr e ↦ elim (Option-cases (oldest m)) [
      | inl none_left ↦ rw (e, none_left) (stuck none_left)
      | inr ((k, v), found) ↦ rw (e, found) (next k v found)
    ]
  ]

  -- Nothing is left to do when the loop ends: the map is within its cap, or no entry may go.
  pub evict_done :
      (fuel limit : ℕ) (m : Assoc V)
      → Unique m
      → length m ≤ fuel
      → (length (evict fuel limit m) ≤ limit) ⊎ (oldest (evict fuel limit m) ≡ none)
  unfolding evict
  evict_done zero limit [] u h = inr refl
  evict_done zero limit (x ∷ m) u h = absurd (omega arith)
  evict_done (suc fuel) limit m u h =
      evict_cases (λ r. (length r ≤ limit) ⊎ (oldest r ≡ none)) fuel limit m inl inr
        λ k v e.
          evict_done fuel limit (remove k m) (remove-Unique k m u)
            (omega (arith, length-remove-lt k v m (oldest-entry m k v u e).0))

  -- An entry that may not go is still there.
  pub get-evict :
      (fuel limit : ℕ) (m : Assoc V) (k : String) (v : V)
      → Unique m
      → get k m ≡ some v
      → evictable v ≡ false
      → get k (evict fuel limit m) ≡ some v
  unfolding evict
  get-evict zero limit m k v u g e = g
  get-evict (suc fuel) limit m k v u g e =
      evict_cases (λ r. get k r ≡ some v) fuel limit m (λ _. g) (λ _. g)
        λ j w o.
          get-evict fuel limit (remove j m) k v (remove-Unique j m u)
            (ground (arith, get-remove j k m, eq_iff j k, oldest-entry m j w u o)) e

  -- No entry is changed or made up.
  pub get-evict-or-none :
      (fuel limit : ℕ) (m : Assoc V) (k : String)
      → (get k (evict fuel limit m) ≡ get k m) ⊎ (get k (evict fuel limit m) ≡ none)
  unfolding evict
  get-evict-or-none zero limit m k = inl refl
  get-evict-or-none (suc fuel) limit m k =
      evict_cases (λ r. (get k r ≡ get k m) ⊎ (get k r ≡ none)) fuel limit m (λ _. inl refl)
        (λ _. inl refl)
        λ j w o. ground (arith, get-remove j k m, get-evict-or-none fuel limit (remove j m) k)

  pub evict-Unique : (fuel limit : ℕ) (m : Assoc V) → Unique m → Unique (evict fuel limit m)
  unfolding evict
  evict-Unique zero limit m u = u
  evict-Unique (suc fuel) limit m u =
      evict_cases Unique fuel limit m (λ _. u) (λ _. u)
        λ k v e. evict-Unique fuel limit (remove k m) (remove-Unique k m u)

-- A figure that is 0 on whatever may go is the same before and after.
module _ {ℓ} {V : Type ℓ} (figure : V → ℕ) where
  pub map_or-evict :
      (evictable : V → Bool) (seen : V → ℕ) (fuel limit : ℕ) (m : Assoc V) (k : String)
      → Unique m
      → ((v : V) → get k m ≡ some v → evictable v ≡ true → figure v ≡ 0)
      → map_or 0 figure (get k (evict evictable seen fuel limit m)) ≡ map_or 0 figure (get k m)
  map_or-evict evictable seen fuel limit m k u zero_if = elim (Option-cases (get k m)) [
    | inl e ↦ ground (arith, get-evict-or-none evictable seen fuel limit m k)
    | inr (v, e) ↦ elim (Bool-cases (evictable v)) [
      | inl gone ↦ ground (arith, zero_if v e gone, get-evict-or-none evictable seen fuel limit m k)
      | inr stays ↦ rw (get-evict evictable seen fuel limit m k v u e stays, e)
    ]
  ]

  pub map_or-retain :
      (p : V → Bool) (m : Assoc V) (k : String)
      → Unique m
      → ((v : V) → get k m ≡ some v → p v ≡ false → figure v ≡ 0)
      → map_or 0 figure (get k (retain p m)) ≡ map_or 0 figure (get k m)
  map_or-retain p m k u zero_if = elim (Option-cases (get k m)) [
    | inl e ↦ ground (arith, get-retain p k m u)
    | inr (v, e) ↦ ground (arith, get-retain p k m u, zero_if v e)
  ]

module _ {ℓ} {V : Type ℓ} (evictable : V → Bool) (seen : V → ℕ) where
  oldest-none :
      (m : Assoc V)
      → oldest evictable seen m ≡ none
      → (k : String) (v : V) → get k m ≡ some v
      → evictable v ≡ false
  unfolding oldest get
  oldest-none [] h k v g = absurd (ground arith)
  oldest-none ((j, w) ∷ m) h k v g = ground (arith, oldest-none m (ground arith) k v)

  -- The loop ends within the cap, or when no entry may go.
  pub evict_capped :
      (limit : ℕ) (m : Assoc V)
      → Unique m
      → (length (evict evictable seen (length m) limit m) ≤ limit)
        ⊎ ((k : String) (v : V)
            → get k (evict evictable seen (length m) limit m) ≡ some v
            → evictable v ≡ false)
  evict_capped limit m u = elim (evict_done evictable seen (length m) limit m u (omega arith)) [
    | inl fits ↦ inl fits
    | inr stuck ↦ inr (oldest-none _ stuck)
  ]
