-- ===== src/Erasure/Units.antt =====
-- Rows that begin as a row of the unit matrix, or with zeros, and their products.
use Prim.Native.Nat.{bit_xor}
use suwappu_lattice_protocol.Prelude.{
  ℕ, zero, suc, ◌<◌, ◌≡◌, ◌≢◌, refl, sym, ap, ◌∙◌, List, [], ◌∷◌, ◌++◌, length, drop, replicate,
  arith,
}
use suwappu_lattice_protocol.Galois.{entry, gf_mul}
use suwappu_lattice_protocol.Galois.Xor.{zero-bit_xor, bit_xor-zero, bit_xor_assoc}
use suwappu_lattice_protocol.Galois.Field.{zero-gf_mul, gf_mul-zero, one-gf_mul}
use suwappu_lattice_protocol.Erasure.Rows.{AllBytes, dot}

-- Zeros up to a column.
abbrev pub IsClear : ℕ → List ℕ → Type 0
IsClear col r = (j : ℕ) → j < col → entry r j ≡ 0

-- Row `i` of the unit matrix, up to a column.
pub record IsUnit (col i : ℕ) (r : List ℕ) : Type 0 where
  pub inside : i < col
  pub one : entry r i ≡ 1
  pub others : (j : ℕ) → j < col → j ≢ i → entry r j ≡ 0

abbrev pub IsZeros : List ℕ → Type 0
IsZeros [] = Unit
IsZeros (x ∷ xs) = (x ≡ 0) × IsZeros xs

pub replicate-IsZeros : (n : ℕ) → IsZeros (replicate n 0)
replicate-IsZeros zero = tt
replicate-IsZeros (suc n) = (refl, replicate-IsZeros n)

pub append-IsZeros : (xs ys : List ℕ) → IsZeros xs → IsZeros ys → IsZeros (xs ++ ys)
append-IsZeros [] ys h k = k
append-IsZeros (x ∷ xs) ys (e, h) k = (e, append-IsZeros xs ys h k)

pub dot-zeros : (r zs : List ℕ) → IsZeros zs → dot r zs ≡ 0
unfolding dot
dot-zeros [] zs h = refl
dot-zeros (x ∷ r) [] h = refl
dot-zeros (x ∷ r) (z ∷ zs) (e, h) =
    ap (λ y. bit_xor (gf_mul x y) (dot r zs)) e
    ∙ ap (λ y. bit_xor y (dot r zs)) (gf_mul-zero x)
    ∙ zero-bit_xor (dot r zs)
    ∙ dot-zeros r zs h

pub dot-drop_zeros :
    (m : ℕ) (r zs : List ℕ) (x : ℕ) → IsZeros zs → dot (drop m r) (x ∷ zs) ≡ gf_mul (entry r m) x
unfolding dot entry
dot-drop_zeros zero [] zs x h = sym (zero-gf_mul x)
dot-drop_zeros zero (y ∷ r) zs x h =
    ap (bit_xor (gf_mul y x)) (dot-zeros r zs h) ∙ bit_xor-zero (gf_mul y x)
dot-drop_zeros (suc m) [] zs x h = sym (zero-gf_mul x)
dot-drop_zeros (suc m) (y ∷ r) zs x h = dot-drop_zeros m r zs x h

pub dot-clear : (u t r : List ℕ) → IsClear (length u) r → dot r (u ++ t) ≡ dot (drop (length u) r) t
unfolding dot entry
dot-clear [] t r h = refl
dot-clear (a ∷ u) t [] h = refl
dot-clear (a ∷ u) t (y ∷ r) h =
    ap (λ z. bit_xor (gf_mul z a) (dot r (u ++ t))) (h 0 (omega arith))
    ∙ ap (λ z. bit_xor z (dot r (u ++ t))) (zero-gf_mul a)
    ∙ zero-bit_xor (dot r (u ++ t))
    ∙ dot-clear u t r (λ j lt. h (suc j) (omega arith))

pub dot-unit :
    (i : ℕ) (u t r : List ℕ)
    → AllBytes u
    → IsUnit (length u) i r
    → dot r (u ++ t) ≡ bit_xor (entry u i) (dot (drop (length u) r) t)
unfolding dot entry
dot-unit i [] t r b h = absurd (let k = h.inside in omega arith)
dot-unit i (a ∷ u) t [] b h = absurd (let k = h.one in omega (arith, k))
dot-unit zero (a ∷ u) t (y ∷ r) (ha, b) h =
    ap (λ z. bit_xor (gf_mul z a) (dot r (u ++ t))) h.one
    ∙ ap (λ z. bit_xor z (dot r (u ++ t))) (one-gf_mul a ha)
    ∙ ap (bit_xor a)
        (dot-clear u t r (λ j lt. h.others (suc j) (omega arith) (λ e. omega (arith, e))))
dot-unit (suc i) (a ∷ u) t (y ∷ r) (ha, b) h =
    ap (λ z. bit_xor (gf_mul z a) (dot r (u ++ t)))
      (h.others 0 (omega arith) (λ e. omega (arith, e)))
    ∙ ap (λ z. bit_xor z (dot r (u ++ t))) (zero-gf_mul a)
    ∙ zero-bit_xor (dot r (u ++ t))
    ∙ dot-unit i u t r b (record {
      inside = let k = h.inside in omega (arith, k);
      one = h.one;
      others = λ j lt ne. h.others (suc j) (omega arith) (λ e. ne (omega (arith, e)));
    })

pub dot-append :
    (r s u t : List ℕ) → length r ≡ length u → dot (r ++ s) (u ++ t) ≡ bit_xor (dot r u) (dot s t)
unfolding dot
dot-append [] s [] t n = sym (zero-bit_xor (dot s t))
dot-append [] s (a ∷ u) t n = absurd (omega arith)
dot-append (x ∷ r) s [] t n = absurd (omega arith)
dot-append (x ∷ r) s (a ∷ u) t n =
    ap (bit_xor (gf_mul x a)) (dot-append r s u t (omega arith))
    ∙ sym (bit_xor_assoc (gf_mul x a) (dot r u) (dot s t))
