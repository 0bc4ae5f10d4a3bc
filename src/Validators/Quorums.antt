-- ===== src/Validators/Quorums.antt =====
-- Two quorums of validators have members in common.
use native.Mathlib.Nat.{div-add-mod'}
use suwappu_lattice_protocol.Prelude.{
  ℕ, zero, suc, ◌+◌, ◌-◌, ◌/◌, ◌%◌, ◌<◌, ◌≤◌, ◌≡◌, refl, sym, ap, ◌∙◌, Bool, false, ◌||◌,
  Bool-cases, List, [], ◌∷◌, length, ◌==◌, ==-cases, if◌then◌else◌, inl, inr, arith, All,
}
use suwappu_lattice_protocol.Validators.{ValidatorInfo, quorum, make_validator_set}

-- Whether an index is among some.
unfoldable pub listed : ℕ → List ℕ → Bool
listed i [] = false
listed i (j ∷ js) = (j == i) || listed i js

abbrev pub Different : List ℕ → Type 0
Different [] = Unit
Different (i ∷ is) = (listed i is ≡ false) × Different is

-- The indices of the second list that the first one has too.
unfoldable pub common : List ℕ → List ℕ → List ℕ
common xs [] = []
common xs (y ∷ ys) = let rest = common xs ys in if listed y xs then y ∷ rest else rest

union : List ℕ → List ℕ → List ℕ
union xs [] = xs
union xs (y ∷ ys) = let rest = union xs ys in if listed y xs then rest else y ∷ rest

length-union :
    (xs ys : List ℕ) → length (union xs ys) + length (common xs ys) ≡ length xs + length ys
unfolding union common
length-union xs [] = omega arith
length-union xs (y ∷ ys) = elim (Bool-cases (listed y xs)) [
  | inl b ↦ rw b (omega (arith, length-union xs ys))
  | inr b ↦ rw b (omega (arith, length-union xs ys))
]

listed-union :
    (i : ℕ) (xs ys : List ℕ)
    → listed i xs ≡ false
    → listed i ys ≡ false
    → listed i (union xs ys) ≡ false
unfolding union listed
listed-union i xs [] hx hy = hx
listed-union i xs (y ∷ ys) hx hy = elim (Bool-cases (y == i)) [
  | inl b ↦ absurd (let f = rw b at hy in cc)
  | inr b ↦
      let rest = listed-union i xs ys hx (rw b at hy) in
      elim (Bool-cases (listed y xs)) [ inl c ↦ rw c rest | inr c ↦ rw (c, b) rest ]
]

union-Different : (xs ys : List ℕ) → Different xs → Different ys → Different (union xs ys)
unfolding union
union-Different xs [] dx dy = dx
union-Different xs (y ∷ ys) dx (n, dy) = elim (Bool-cases (listed y xs)) [
  | inl b ↦ rw b (union-Different xs ys dx dy)
  | inr b ↦ rw b (listed-union y xs ys b n, union-Different xs ys dx dy)
]

union-below :
    (n : ℕ) (xs ys : List ℕ)
    → All (λ i. i < n) xs
    → All (λ i. i < n) ys
    → All (λ i. i < n) (union xs ys)
unfolding union
union-below n xs [] hx hy = hx
union-below n xs (y ∷ ys) hx (h, hy) = elim (Bool-cases (listed y xs)) [
  | inl b ↦ rw b (union-below n xs ys hx hy)
  | inr b ↦ rw b (h, union-below n xs ys hx hy)
]

without : ℕ → List ℕ → List ℕ
without n [] = []
without n (i ∷ is) = let rest = without n is in if i == n then rest else i ∷ rest

listed-without : (i n : ℕ) (is : List ℕ) → listed i is ≡ false → listed i (without n is) ≡ false
unfolding listed without
listed-without i n [] h = refl
listed-without i n (j ∷ js) h = elim (Bool-cases (j == i)) [
  | inl b ↦ absurd (let f = rw b at h in cc)
  | inr b ↦
      let rest = listed-without i n js (rw b at h) in
      elim (Bool-cases (j == n)) [ inl c ↦ rw c rest | inr c ↦ rw (c, b) rest ]
]

without-Different : (n : ℕ) (is : List ℕ) → Different is → Different (without n is)
unfolding without
without-Different n [] d = tt
without-Different n (i ∷ is) (h, d) = elim (Bool-cases (i == n)) [
  | inl b ↦ rw b (without-Different n is d)
  | inr b ↦ rw b (listed-without i n is h, without-Different n is d)
]

without-below : (n : ℕ) (is : List ℕ) → All (λ i. i < suc n) is → All (λ i. i < n) (without n is)
unfolding without
without-below n [] h = tt
without-below n (i ∷ is) (lt, h) = elim (==-cases i n) [
  | inl (e, b) ↦ rw b (without-below n is h)
  | inr (ne, b) ↦ rw b (omega (arith, lt, ne), without-below n is h)
]

-- A list without an index that it lacks is the list.
length-without_absent :
    (n : ℕ) (is : List ℕ) → listed n is ≡ false → length (without n is) ≡ length is
unfolding listed without
length-without_absent n [] h = refl
length-without_absent n (i ∷ is) h = elim (Bool-cases (i == n)) [
  | inl b ↦ absurd (let f = rw b at h in cc)
  | inr b ↦ rw b (ap suc (length-without_absent n is (rw b at h)))
]

length-without : (n : ℕ) (is : List ℕ) → Different is → length is ≤ suc (length (without n is))
unfolding without
length-without n [] d = omega arith
length-without n (i ∷ is) (h, d) = elim (==-cases i n) [
  | inl (e, b) ↦
      let same = length-without_absent n is (ap (λ j. listed j is) (sym e) ∙ h) in
      rw b (omega (arith, same))
  | inr (ne, b) ↦ let le = length-without n is d in rw b (omega (arith, le))
]

-- At most `n` different numbers are below `n`.
length-below : (n : ℕ) (is : List ℕ) → Different is → All (λ i. i < n) is → length is ≤ n
length-below zero [] d h = omega arith
length-below zero (i ∷ is) d (lt, h) = absurd (omega (arith, lt))
length-below (suc n) is d h = omega (
  arith,
  length-without n is d,
  length-below n (without n is) (without-Different n is d) (without-below n is h),
)

-- Two sets of at least `quorum_threshold` indices of validators have more than `f` of them in common
-- where there are `3 * f + 1` validators; where there are `r` more, for `r` at most 2, the bound is
-- `r` less.
pub quorum_threshold-common :
    (epoch : ℕ) (members : List ValidatorInfo) (xs ys : List ℕ)
    → 0 < length members
    → Different xs
    → Different ys
    → All (λ i. i < length members) xs
    → All (λ i. i < length members) ys
    → (make_validator_set epoch members).quorum_threshold ≤ length xs
    → (make_validator_set epoch members).quorum_threshold ≤ length ys
    → (length members - 1) / 3 < length (common xs ys) + (length members - 1) % 3
unfolding make_validator_set quorum
quorum_threshold-common epoch members xs ys some_member dx dy bx by qx qy =
    let all =
      length-below (length members) (union xs ys) (union-Different xs ys dx dy)
        (union-below (length members) xs ys bx by) in
    omega (arith, all, length-union xs ys, div-add-mod' (length members - 1) 3, qx, qy, some_member)
