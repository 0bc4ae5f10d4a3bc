-- ===== src/Votes/Double.antt =====
-- The float product of `math.ceil(total_operators * self._required_ratio)`
-- (src/ltp/governance.py). A positive double is a significand over a power of two; a product of two
-- is rounded to 53 bits, a tie to the even one.
use native.Mathlib.Nat.{div-add-mod', mod-lt, pow-suc}
use suwappu_lattice_protocol.Prelude.{
  ℕ, zero, suc, ◌+◌, ◌*◌, ◌/◌, ◌%◌, ◌^◌, ◌<◌, ◌≤◌, ◌≡◌, refl, ap, ◌∙◌, subst, true, ◌&&◌, ◌||◌,
  Bool-cases, ltb, ltb-cases, ◌==◌, if◌then◌else◌, inl, inr, arith,
}

-- The multiple of `p` next to `x`, and of two the one with the even quotient.
unfoldable pub nearest : ℕ → ℕ → ℕ
nearest p x =
    let q = x / p in
    let r = x % p in if ltb (2 * r) p || ((2 * r == p) && (q % 2 == 0)) then q * p else (q + 1) * p

-- The power of two, from a first one, at which a number has at most 53 bits.
unfoldable pub unit_in_last_place : ℕ → ℕ → ℕ → ℕ
unit_in_last_place zero p x = p
unit_in_last_place (suc n) p x =
    let more = unit_in_last_place n (2 * p) x in if ltb x (2 ^ 53 * p) then p else more

-- Rounded to 53 bits. A number of up to 2 ^ 106, as a product of two significands is, is reached
-- within 53 doublings.
unfoldable pub round_double : ℕ → ℕ
round_double x = nearest (unit_in_last_place 53 1 x) x

-- The rounding error is at most half of the unit.
nearest-near : (p x : ℕ) → 0 < p → (2 * nearest p x ≤ 2 * x + p) × (2 * x ≤ 2 * nearest p x + p)
unfolding nearest
nearest-near p x pos =
    let q = x / p in
    let r = x % p in
    let whole = div-add-mod' x p in
    let small = mod-lt x pos in
    let grown : (q + 1) * p ≡ q * p + p = grind arith in
    elim (Bool-cases (ltb (2 * r) p || ((2 * r == p) && (q % 2 == 0)))) [
      | inl down ↦
          let le : 2 * r ≤ p = ground arith in
          rw down (omega (arith, whole, le), omega (arith, whole, le))
      | inr up ↦
          let ge : p ≤ 2 * r = ground arith in
          rw up (omega (arith, whole, ge, grown, small), omega (arith, whole, ge, grown, small))
    ]

-- The unit is 1, or the number has 53 bits of it.
unit-le :
    (n p x : ℕ)
    → 0 < p
    → 2 ^ 52 * p ≤ x
    → (0 < unit_in_last_place n p x) × (2 ^ 52 * unit_in_last_place n p x ≤ x)
unfolding unit_in_last_place
unit-le zero p x pos h = (pos, h)
unit-le (suc n) p x pos h = elim (ltb-cases x (2 ^ 53 * p)) [
  | inl (lt, b) ↦ rw b (pos, h)
  | inr (ge, b) ↦ rw b (unit-le n (2 * p) x (omega arith) (omega (arith, ge)))
]

unit-one : (n p x : ℕ) → x < 2 ^ 53 * p → unit_in_last_place n p x ≡ p
unfolding unit_in_last_place
unit-one zero p x h = refl
unit-one (suc n) p x h = let b : ltb x (2 ^ 53 * p) ≡ true = ground arith in rw b refl

-- A number of at most 53 bits stays.
pub round_double-exact : (x : ℕ) → x < 2 ^ 53 → round_double x ≡ x
unfolding round_double
round_double-exact x h =
    let one : unit_in_last_place 53 1 x ≡ 1 = unit-one 53 1 x (omega (arith, h)) in
    let (over, under) = nearest-near 1 x (omega arith) in
    ap (λ p. nearest p x) one ∙ omega (arith, over, under)

rounded :
    (x : ℕ)
    → 2 ^ 53 ≤ x
    → (round_double x * 2 ^ 53 ≤ x * 2 ^ 53 + x) × (x * 2 ^ 53 ≤ round_double x * 2 ^ 53 + x)
unfolding round_double
rounded x ge =
    let (pos, le) = unit-le 53 1 x (omega arith) (omega (arith, ge)) in
    let (over, under) = nearest-near (unit_in_last_place 53 1 x) x pos in
    (omega (arith, le, over), omega (arith, le, under))

-- Every number is rounded by at most its part 1 / 2 ^ 53.
pub round_double-near :
    (x : ℕ)
    → (round_double x * 2 ^ 53 ≤ x * 2 ^ 53 + x) × (x * 2 ^ 53 ≤ round_double x * 2 ^ 53 + x)
round_double-near x = elim (ltb-cases x (2 ^ 53)) [
  | inl (lt, b) ↦ let e = round_double-exact x lt in (omega (arith, e), omega (arith, e))
  | inr (ge, b) ↦ rounded x ge
]

-- The doublings reach a unit of which the number has at most 53 bits.
unit-reaches : (n p x : ℕ) → x < 2 ^ n * (2 ^ 53 * p) → x < 2 ^ 53 * unit_in_last_place n p x
unfolding unit_in_last_place
unit-reaches zero p x h = omega (arith, h)
unit-reaches (suc n) p x h = elim (ltb-cases x (2 ^ 53 * p)) [
  | inl (lt, b) ↦ rw b lt
  | inr (ge, b) ↦
      let twice : 2 ^ suc n * (2 ^ 53 * p) ≡ 2 ^ n * (2 ^ 53 * (2 * p)) =
        ap (λ y. y * (2 ^ 53 * p)) (pow-suc 2 n) ∙ grind arith in
      rw b (unit-reaches n (2 * p) x (subst (λ y. x < y) twice h))
]

-- 53 of them are enough for a product of two numbers of 53 bits.
product-reaches :
    (a b : ℕ) → a < 2 ^ 53 → b < 2 ^ 53 → a * b < 2 ^ 53 * unit_in_last_place 53 1 (a * b)
product-reaches a b ha hb =
    let most : a * b ≤ 2 ^ 53 * b = grind (arith, ha) in
    unit-reaches 53 1 (a * b) (omega (arith, most, hb))
