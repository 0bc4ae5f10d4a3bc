-- ===== src/Erasure/Indices.antt =====
-- The indices of the shards that a decoding picks.
use suwappu_lattice_protocol.Prelude.{
  ℕ, zero, suc, ◌<◌, ◌≤◌, ◌≡◌, refl, sym, ap, ◌∙◌, true, Bool-cases, some, List, [], ◌∷◌, map,
  length, get_elem?, take, ltb, leb, ltb-cases, ◌==◌, ==-cases, inl, inr, Bytes, ok, arith,
}
use suwappu_lattice_protocol.Erasure.{
  Shards, find_shard, find_shards, place, sorted_keys, all_below, all_reach,
}
use suwappu_lattice_protocol.Erasure.Roots.{Each, Each-map, IsRising}

place-Each : (P : ℕ → Type 0) (i : ℕ) (js : List ℕ) → P i → Each P js → Each P (place i js)
unfolding place
place-Each P i [] p h = (p, tt)
place-Each P i (j ∷ js) p (q, h) = elim (Bool-cases (ltb i j)) [
  | inl before ↦ rw before (p, (q, h))
  | inr after ↦ elim (Bool-cases (i == j)) [
    | inl same ↦ rw (after, same) (q, h)
    | inr other ↦ rw (after, other) (q, place-Each P i js p h)
  ]
]

place-IsRising : (i : ℕ) (js : List ℕ) → IsRising js → IsRising (place i js)
unfolding place
place-IsRising i [] h = (tt, tt)
place-IsRising i (j ∷ js) (over, up) = elim (ltb-cases i j) [
  | inl (lt, before) ↦
      rw before
        ((lt, Each-map (λ y. j < y) (λ y. i < y) js (λ y h. omega (arith, h, lt)) over), (over, up))
  | inr (le, after) ↦ elim (==-cases i j) [
    | inl (e, same) ↦ rw (after, same) (over, up)
    | inr (ne, other) ↦
        rw (after, other)
          (place-Each (λ y. j < y) i js (omega (arith, le, ne)) over, place-IsRising i js up)
  ]
]

pub sorted_keys-IsRising : (shards : Shards) → IsRising (sorted_keys shards)
unfolding sorted_keys
sorted_keys-IsRising [] = tt
sorted_keys-IsRising ((i, s) ∷ shards) =
    place-IsRising i (sorted_keys shards) (sorted_keys-IsRising shards)

length-place : (i : ℕ) (js : List ℕ) → length (place i js) ≤ suc (length js)
unfolding place
length-place i [] = omega arith
length-place i (j ∷ js) = elim (Bool-cases (ltb i j)) [
  | inl before ↦ rw before (omega arith)
  | inr after ↦ elim (Bool-cases (i == j)) [
    | inl same ↦ rw (after, same) (omega arith)
    | inr other ↦ rw (after, other) (omega (arith, length-place i js))
  ]
]

pub length-sorted_keys : (shards : Shards) → length (sorted_keys shards) ≤ length shards
unfolding sorted_keys
length-sorted_keys [] = omega arith
length-sorted_keys ((i, s) ∷ shards) =
    omega (arith, length-place i (sorted_keys shards), length-sorted_keys shards)

pub take-Each : (P : ℕ → Type 0) (n : ℕ) (xs : List ℕ) → Each P xs → Each P (take n xs)
take-Each P zero xs h = tt
take-Each P (suc n) [] h = tt
take-Each P (suc n) (x ∷ xs) (p, h) = (p, take-Each P n xs h)

pub take-IsRising : (n : ℕ) (xs : List ℕ) → IsRising xs → IsRising (take n xs)
take-IsRising zero xs h = tt
take-IsRising (suc n) [] h = tt
take-IsRising (suc n) (x ∷ xs) (over, up) =
    (take-Each (λ y. x < y) n xs over, take-IsRising n xs up)

-- Every entry is a shard at its index.
abbrev pub IsFrom : List Bytes → Shards → Type 0
IsFrom out [] = Unit
IsFrom out ((i, s) ∷ shards) = (get_elem? out i ≡ some s) × IsFrom out shards

abbrev pub Finds : List Bytes → Shards → ℕ → Type 0
Finds out shards i = (s : Bytes) × (find_shard i shards ≡ ok s) × (get_elem? out i ≡ some s)

pub sorted_keys-Finds :
    (out : List Bytes) (shards : Shards)
    → IsFrom out shards
    → Each (Finds out shards) (sorted_keys shards)
unfolding sorted_keys find_shard
sorted_keys-Finds out [] h = tt
sorted_keys-Finds out ((j, s) ∷ shards) (e, h) =
    place-Each (Finds out ((j, s) ∷ shards)) j (sorted_keys shards) (s, ground arith, e)
      (Each-map (Finds out shards) (Finds out ((j, s) ∷ shards)) (sorted_keys shards)
        (λ i (t, found, there). elim (==-cases j i) [
          | inl (same, b) ↦ (s, rw b refl, ap (get_elem? out) (sym same) ∙ e)
          | inr (ne, b) ↦ (t, rw b found, there)
        ])
        (sorted_keys-Finds out shards h))

pub find_shards-ok :
    (g : ℕ → Bytes) (shards : Shards) (is : List ℕ)
    → Each (λ i. find_shard i shards ≡ ok (g i)) is
    → find_shards is shards ≡ ok (map g is)
unfolding find_shards
find_shards-ok g shards [] h = refl
find_shards-ok g shards (i ∷ is) (e, h) = rw (e, find_shards-ok g shards is h) refl

pub all_below-true : (n : ℕ) (is : List ℕ) → Each (λ i. i < n) is → all_below n is ≡ true
unfolding all_below
all_below-true n [] h = refl
all_below-true n (i ∷ is) (lt, h) =
    let e : ltb i n ≡ true = ground arith in rw (e, all_below-true n is h) refl

pub all_reach-true :
    (size : ℕ) (g : ℕ → Bytes) (is : List ℕ)
    → ((i : ℕ) → length (g i) ≡ size)
    → all_reach size (map g is) ≡ true
unfolding all_reach
all_reach-true size g [] h = refl
all_reach-true size g (i ∷ is) h =
    let e : leb size (length (g i)) ≡ true = let l = h i in ground (arith, l) in
    rw (e, all_reach-true size g is h) refl
