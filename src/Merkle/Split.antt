-- ===== src/Merkle/Split.antt =====
-- The split point of RFC 6962, the largest power of two strictly below the size, against the
-- doubling loop of `_largest_pow2_below`.
use suwappu_lattice_protocol.Prelude.{
  ℕ, zero, suc, ◌+◌, ◌-◌, ◌*◌, ◌^◌, ◌≤◌, ◌<◌, ◌≡◌, refl, sym, ap, ◌∙◌, arith, ltb-cases, inl, inr,
}
use native.Mathlib.Nat.{pow-suc, le_antisymm}
use suwappu_lattice_protocol.Merkle.Functions.{grow, largest_pow2_below}

-- `k` is the power of two with `k < n ≤ 2k`.
pub record IsSplit (n k : ℕ) : Type 0 where
  pub power : (e : ℕ) × (k ≡ 2 ^ e)
  pub below : k < n
  pub half : n ≤ k * 2

-- One run of the loop from a power of two below `n`.
grow-IsSplit :
    (f n k : ℕ) → n ≤ f + k → 1 ≤ k → k < n → (e : ℕ) → k ≡ 2 ^ e → IsSplit n (grow f n k)
unfolding grow
grow-IsSplit zero n k enough pos lt e p = absurd (omega arith)
grow-IsSplit (suc f) n k enough pos lt e p = elim (ltb-cases (k * 2) n) [
  | inl (more, t) ↦
      rw t (grow-IsSplit f n (k * 2) (omega arith) (omega arith) more (suc e) (rw (pow-suc, p)))
  | inr (done, t) ↦ rw t (record { power = (e, p); below = lt; half = done })
]

-- For a size of at least two the loop finds the largest power of two strictly below it.
pub largest_pow2_below-IsSplit : (n : ℕ) → 2 ≤ n → IsSplit n (largest_pow2_below n)
unfolding largest_pow2_below
largest_pow2_below-IsSplit n h = grow-IsSplit n n 1 (omega arith) (omega arith) h 0 refl

pow_step : (d e : ℕ) → 2 ^ e * 2 ≤ 2 ^ (suc d + e)
pow_step zero e = let q : suc zero + e ≡ suc e = omega arith in rw (q, pow-suc) (omega arith)
pow_step (suc d) e =
    let q : suc (suc d) + e ≡ suc (suc d + e) = omega arith in
    rw (q, pow-suc) (omega (arith, pow_step d e))

pow_gap : (d e : ℕ) → d < e → 2 ^ d * 2 ≤ 2 ^ e
pow_gap d e h = let q : e ≡ suc (e - d - 1) + d = omega arith in rw q (pow_step (e - d - 1) d)

-- A size has one split point.
pub IsSplit-unique : {n j k : ℕ} → IsSplit n j → IsSplit n k → j ≡ k
IsSplit-unique {n} {j} {k} a b =
    let (d, p) = a.power in
    let (e, q) = b.power in
    elim (ltb-cases d e) [
      | inl (lt, _) ↦ absurd (omega (arith, pow_gap d e lt, a.half, b.below, p, q))
      | inr (le, _) ↦ elim (ltb-cases e d) [
        | inl (lt, _) ↦ absurd (omega (arith, pow_gap e d lt, b.half, a.below, p, q))
        | inr (ge, _) ↦ p ∙ ap (λ t. 2 ^ t) (le_antisymm ge le) ∙ sym q
      ]
    ]

-- A smaller size above the split point has the same split point.
pub IsSplit-smaller : {m n k : ℕ} → k < m → m ≤ n → IsSplit n k → IsSplit m k
IsSplit-smaller lt le s = record { power = s.power; below = lt; half = omega (arith, s.half) }

-- What the loop returns on a size whose split point is known.
pub largest_pow2_below-eq : {n k : ℕ} → 1 ≤ k → IsSplit n k → largest_pow2_below n ≡ k
largest_pow2_below-eq {n} pos s =
    IsSplit-unique (largest_pow2_below-IsSplit n (omega (arith, s.below))) s

pub IsSplit-pos : {n k : ℕ} → IsSplit n k → 2 ≤ n → 1 ≤ k
IsSplit-pos s h = omega (arith, s.half)
