-- ===== src/Auth/RateLimit/Delay.antt =====
-- The doubling schedule of `ban_delay`, in closed form.
use native.Mathlib.Nat.{pow-suc, pow-le-pow_right}
use picasu.Prelude.{
  ℕ, zero, suc, ◌*◌, ◌^◌, ◌≤◌, min, ◌≡◌, arith, u64_max, leb, saturating_mul, Bool-cases, true,
  false, inl, inr,
}
use picasu.Auth.RateLimit.{ban_rounds, ban_delay}

pow-pos : (n : ℕ) → 1 ≤ 2 ^ n
pow-pos zero = omega arith
pow-pos (suc n) = rw pow-suc (omega (arith, pow-pos n))

scaled : (d p : ℕ) → 1 ≤ p → d * 2 ≤ d * (p * 2)
scaled d p h = grind arith

capped : (cap d p : ℕ) → 1 ≤ p → cap ≤ d * 2 → cap ≡ min (d * (p * 2)) cap
capped cap d p h k = omega (arith, scaled d p h)

unsaturated :
    (cap d : ℕ) → leb cap (saturating_mul d 2) ≡ false → cap ≤ u64_max → saturating_mul d 2 ≡ d * 2
unsaturated cap d e h = ground arith

reaches : (cap d : ℕ) → leb cap (saturating_mul d 2) ≡ true → cap ≤ d * 2
reaches cap d e = ground arith

regroup : (d p : ℕ) → d * 2 * p ≡ d * (p * 2)
regroup d p = grind arith

ban_rounds_lem :
    (cap delay n : ℕ) → cap ≤ u64_max → ban_rounds cap delay n ≡ min (delay * 2 ^ n) cap
unfolding ban_rounds
ban_rounds_lem cap delay zero h = omega arith
ban_rounds_lem cap delay (suc n) h = elim (Bool-cases (leb cap (saturating_mul delay 2))) [
  | inl e ↦ rw (e, pow-suc) (capped cap delay (2 ^ n) (pow-pos n) (reaches cap delay e))
  | inr e ↦
      rw (e, ban_rounds_lem cap (saturating_mul delay 2) n h, pow-suc, unsaturated cap delay e h)
        (rw (regroup delay (2 ^ n)))
]

grows : (d p q : ℕ) → 1 ≤ p → p ≤ q → (d ≤ d * p) × (d * p ≤ d * q)
grows d p q h k = (grind arith, grind arith)

-- For every representable cap, the ban of generation `n` is exactly `min(base * 2^n, cap)`: the
-- saturating multiplication and the early return change nothing.
pub ban_delay_lem : (base cap n : ℕ) → cap ≤ u64_max → ban_delay base cap n ≡ min (base * 2 ^ n) cap
unfolding ban_delay
ban_delay_lem base cap n h = ban_rounds_lem cap base n h

-- With a valid schedule every ban lies between the base and the cap, and a later generation never
-- bans for less.
pub ban_delay_mono :
    (base cap m n : ℕ)
    → cap ≤ u64_max
    → base ≤ cap
    → m ≤ n
    → (base ≤ ban_delay base cap m)
      × (ban_delay base cap m ≤ ban_delay base cap n)
      × (ban_delay base cap n ≤ cap)
ban_delay_mono base cap m n h k l =
    rw (ban_delay_lem base cap m h, ban_delay_lem base cap n h)
      (omega (arith, grows base (2 ^ m) (2 ^ n) (pow-pos m) (pow-le-pow_right (omega arith) l)))
