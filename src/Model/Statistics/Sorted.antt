-- ===== src/Model/Statistics/Sorted.antt =====
-- backend/src/model/album.rs: the files of an album, the newest first.
use picasu.Prelude.{
  ℕ, ◌+◌, ◌%◌, ◌^◌, ◌≤◌, ◌≡◌, ◌⊎◌, refl, ap, ◌∙◌, ◌||◌, some, List, [], ◌∷◌, arith, All, length,
  leb, Bool-cases, inl, inr, if◌then◌else◌,
}
use mathlib.Core.Path.{subst}
use picasu.Model.Text.{Text, text_eq}
use picasu.Model.Statistics.{MediaItemInfo, signed, place, newest_first, last, total_size, in_infos}

abbrev pub Before : MediaItemInfo → MediaItemInfo → Type 0
Before x y = signed x.timestamp ≤ signed y.timestamp

length-place : (i : MediaItemInfo) (xs : List MediaItemInfo) → length (place i xs) ≡ length xs + 1
unfolding place
length-place i [] = refl
length-place i (x ∷ xs) = ground (arith, length-place i xs)

total_size-place :
    (i : MediaItemInfo) (xs : List MediaItemInfo)
    → total_size (place i xs) ≡ (i.size + total_size xs) % 2 ^ 64
unfolding place total_size
total_size-place i [] = refl
total_size-place i (x ∷ xs) = ground (arith, total_size-place i xs)

in_infos-place :
    (id : Text) (i : MediaItemInfo) (xs : List MediaItemInfo)
    → in_infos id (place i xs) ≡ (text_eq i.asset_id id || in_infos id xs)
unfolding place
in_infos-place id i [] = ground arith
in_infos-place id i (x ∷ xs) = ground (arith, in_infos-place id i xs)

module _ (P : MediaItemInfo → Type 0) where
  All-place : (i : MediaItemInfo) (xs : List MediaItemInfo) → P i → All P xs → All P (place i xs)
  unfolding place
  All-place i [] p h = (p, tt)
  All-place i (x ∷ xs) p h = elim (Bool-cases (leb (signed x.timestamp) (signed i.timestamp))) [
    | inl e ↦ rw (e, place) (p, h)
    | inr e ↦ rw (e, place) (h.0, All-place i xs p h.1)
  ]

  placed-All : (i : MediaItemInfo) (xs : List MediaItemInfo) → All P (place i xs) → P i × All P xs
  unfolding place
  placed-All i [] h = h
  placed-All i (x ∷ xs) h = elim (Bool-cases (leb (signed x.timestamp) (signed i.timestamp))) [
    | inl e ↦ subst (λ b. All P (if b then i ∷ x ∷ xs else x ∷ place i xs)) e h
    | inr e ↦
        let h' : All P (x ∷ place i xs) =
          subst (λ b. All P (if b then i ∷ x ∷ xs else x ∷ place i xs)) e h in
        let (p, rest) = placed-All i xs h'.1 in (p, (h'.0, rest))
  ]

  pub sorted-All : (xs : List MediaItemInfo) → All P (newest_first xs) → All P xs
  unfolding newest_first
  sorted-All [] h = tt
  sorted-All (x ∷ xs) h =
      let (p, rest) = placed-All x (newest_first xs) h in (p, sorted-All xs rest)

  All-weaken :
      (Q : MediaItemInfo → Type 0) (xs : List MediaItemInfo)
      → ((x : MediaItemInfo) → P x → Q x)
      → All P xs
      → All Q xs
  All-weaken Q [] f h = tt
  All-weaken Q (x ∷ xs) f h = (f x h.0, All-weaken Q xs f h.1)

pub All-both :
    (P Q : MediaItemInfo → Type 0) (xs : List MediaItemInfo)
    → All P xs
    → All Q xs
    → All (λ x. P x × Q x) xs
All-both P Q [] p q = tt
All-both P Q (x ∷ xs) p q = ((p.0, q.0), All-both P Q xs p.1 q.1)

-- No row comes after an older one.
abbrev pub Descending : List MediaItemInfo → Type 0
Descending [] = Unit
Descending (x ∷ xs) = All (λ y. Before y x) xs × Descending xs

place-Descending :
    (i : MediaItemInfo) (xs : List MediaItemInfo) → Descending xs → Descending (place i xs)
unfolding place
place-Descending i [] d = (tt, tt)
place-Descending i (x ∷ xs) d = elim (Bool-cases (leb (signed x.timestamp) (signed i.timestamp))) [
  | inl e ↦
      let older : Before x i = ground arith in
      rw (e, place)
        ((older, All-weaken (λ y. Before y x) (λ y. Before y i) xs (λ y h. omega arith) d.0), d)
  | inr e ↦
      let newer : Before i x = ground arith in
      rw (e, place) (All-place (λ y. Before y x) i xs newer d.0, place-Descending i xs d.1)
]

pub newest_first-Descending : (xs : List MediaItemInfo) → Descending (newest_first xs)
unfolding newest_first
newest_first-Descending [] = tt
newest_first-Descending (x ∷ xs) = place-Descending x (newest_first xs) (newest_first-Descending xs)

pub length-newest_first : (xs : List MediaItemInfo) → length (newest_first xs) ≡ length xs
unfolding newest_first
length-newest_first [] = refl
length-newest_first (x ∷ xs) =
    omega (arith, length-place x (newest_first xs), length-newest_first xs)

pub total_size-newest_first :
    (xs : List MediaItemInfo) → total_size (newest_first xs) ≡ total_size xs
unfolding newest_first total_size
total_size-newest_first [] = refl
total_size-newest_first (x ∷ xs) =
    total_size-place x (newest_first xs)
    ∙ ap (λ n. (x.size + n) % 2 ^ 64) (total_size-newest_first xs)

pub in_infos-newest_first :
    (id : Text) (xs : List MediaItemInfo) → in_infos id (newest_first xs) ≡ in_infos id xs
unfolding newest_first
in_infos-newest_first id [] = refl
in_infos-newest_first id (x ∷ xs) =
    ground (arith, in_infos-place id x (newest_first xs), in_infos-newest_first id xs)

-- The last of a descending list is its oldest.
pub last-oldest :
    (x : MediaItemInfo) (xs : List MediaItemInfo)
    → Descending (x ∷ xs)
    → (l : MediaItemInfo) × (last (x ∷ xs) ≡ some l) × All (λ y. Before l y) (x ∷ xs)
unfolding last
last-oldest x [] d = (x, refl, (omega arith, tt))
last-oldest x (y ∷ ys) d =
    let (l, e, least) = last-oldest y ys d.1 in (l, e, (omega (arith, least.0, d.0.0), least))

-- One of the list's files is such.
abbrev pub Has : (MediaItemInfo → Type 0) → List MediaItemInfo → Type 0
Has P [] = ⊥
Has P (x ∷ xs) = P x ⊎ Has P xs

abbrev pub At : ℕ → MediaItemInfo → Type 0
At t i = i.timestamp ≡ t

abbrev pub Between : ℕ → ℕ → MediaItemInfo → Type 0
Between lo hi i = (signed lo ≤ signed i.timestamp) × (signed i.timestamp ≤ signed hi)

abbrev pub sizes : List MediaItemInfo → ℕ
sizes [] = 0
sizes (x ∷ xs) = x.size + sizes xs

module _ (P : MediaItemInfo → Type 0) where
  place-Has : (i : MediaItemInfo) (xs : List MediaItemInfo) → Has P (place i xs) → P i ⊎ Has P xs
  unfolding place
  place-Has i [] h = h
  place-Has i (x ∷ xs) h = elim (Bool-cases (leb (signed x.timestamp) (signed i.timestamp))) [
    | inl e ↦ subst (λ b. Has P (if b then i ∷ x ∷ xs else x ∷ place i xs)) e h
    | inr e ↦
        let h' : Has P (x ∷ place i xs) =
          subst (λ b. Has P (if b then i ∷ x ∷ xs else x ∷ place i xs)) e h in
        elim h' [
          | inl p ↦ inr (inl p)
          | inr there ↦ elim (place-Has i xs there) [ inl p ↦ inl p | inr later ↦ inr (inr later) ]
        ]
  ]

  pub sorted-Has : (xs : List MediaItemInfo) → Has P (newest_first xs) → Has P xs
  unfolding newest_first
  sorted-Has [] h = h
  sorted-Has (x ∷ xs) h = elim (place-Has x (newest_first xs) h) [
    | inl p ↦ inl p
    | inr there ↦ inr (sorted-Has xs there)
  ]

pub last-Has :
    (x : MediaItemInfo) (xs : List MediaItemInfo) (l : MediaItemInfo)
    → last (x ∷ xs) ≡ some l
    → Has (At l.timestamp) (x ∷ xs)
unfolding last
last-Has x [] l e =
    let same : x ≡ l = ground arith in inl (ap (λ (i : MediaItemInfo). i.timestamp) same)
last-Has x (y ∷ ys) l e = inr (last-Has y ys l e)
