-- ===== src/Auth/RateLimit/Window.antt =====
-- The pruned deque against the in-window count.
use picasu.Prelude.{
  ℕ, ◌+◌, ◌-◌, ◌≤◌, ◌<◌, ◌≡◌, refl, ap, List, [], ◌∷◌, ◌++◌, arith, ltb, leb, length, length-append,
  length-filter-le, filter, saturating_sub, Bool-cases, inl, inr,
}
use picasu.Auth.RateLimit.{Bucket, drop_stale, failure_count}

-- The times do not fall along the deque, and lie between the bounds.
abbrev pub Ascending : ℕ → ℕ → List ℕ → Type 0
Ascending lo hi [] = lo ≤ hi
Ascending lo hi (t ∷ ts) = (lo ≤ t) × Ascending t hi ts

pub Ascending-bounds : (lo hi : ℕ) (ts : List ℕ) → Ascending lo hi ts → lo ≤ hi
Ascending-bounds lo hi [] h = h
Ascending-bounds lo hi (t ∷ ts) h = omega (arith, Ascending-bounds t hi ts h.1)

pub Ascending-below :
    (lo lo' hi : ℕ) (ts : List ℕ) → lo ≤ lo' → Ascending lo' hi ts → Ascending lo hi ts
Ascending-below lo lo' hi [] h a = omega arith
Ascending-below lo lo' hi (t ∷ ts) h a = (omega arith, a.1)

pub Ascending-above :
    (lo hi hi' : ℕ) (ts : List ℕ) → hi ≤ hi' → Ascending lo hi ts → Ascending lo hi' ts
Ascending-above lo hi hi' [] h a = omega arith
Ascending-above lo hi hi' (t ∷ ts) h a = (a.0, Ascending-above t hi hi' ts h a.1)

pub Ascending-snoc :
    (lo hi now : ℕ) (ts : List ℕ)
    → hi ≤ now
    → Ascending lo hi ts
    → Ascending lo now (ts ++ now ∷ [])
Ascending-snoc lo hi now [] h a = omega arith
Ascending-snoc lo hi now (t ∷ ts) h a = (a.0, Ascending-snoc t hi now ts h a.1)

pub Ascending-drop_stale :
    (w now lo hi : ℕ) (ts : List ℕ) → Ascending lo hi ts → Ascending lo hi (drop_stale w now ts)
unfolding drop_stale
Ascending-drop_stale w now lo hi [] a = a
Ascending-drop_stale w now lo hi (t ∷ ts) a = ground (
  arith,
  Ascending-drop_stale w now t hi ts a.1,
  Ascending-below lo t hi (drop_stale w now ts) a.0,
)

abbrev in_window : ℕ → ℕ → List ℕ → List ℕ
in_window w now = filter (λ old. ltb (saturating_sub now old) w)

in_window-fresh :
    (w now lo hi : ℕ) (ts : List ℕ) → now - lo < w → Ascending lo hi ts → in_window w now ts ≡ ts
in_window-fresh w now lo hi [] h a = refl
in_window-fresh w now lo hi (t ∷ ts) h a =
    ground (arith, in_window-fresh w now t hi ts (omega arith) a.1)

-- Popping the stale front leaves exactly the times in the window, since the deque is in order.
drop_stale-eq-in_window :
    (w now lo hi : ℕ) (ts : List ℕ) → Ascending lo hi ts → drop_stale w now ts ≡ in_window w now ts
unfolding drop_stale
drop_stale-eq-in_window w now lo hi [] a = refl
drop_stale-eq-in_window w now lo hi (t ∷ ts) a = elim (Bool-cases (leb w (now - t))) [
  | inl e ↦ ground (arith, drop_stale-eq-in_window w now t hi ts a.1)
  | inr e ↦ ground (arith, in_window-fresh w now t hi ts (ground arith) a.1)
]

pub failure_count-le : (b : Bucket) (now : ℕ) → failure_count b now ≤ length b.failures
unfolding failure_count
failure_count-le b now = length-filter-le _ b.failures

pub length-drop_stale :
    (b : Bucket) (now hi : ℕ)
    → Ascending 0 hi b.failures
    → length (drop_stale b.window_secs now b.failures ++ now ∷ []) ≡ failure_count b now + 1
unfolding failure_count
length-drop_stale b now hi a = omega (
  arith,
  length-append (drop_stale b.window_secs now b.failures) (now ∷ []),
  ap length (drop_stale-eq-in_window b.window_secs now 0 hi b.failures a),
)
