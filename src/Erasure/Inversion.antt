-- ===== src/Erasure/Inversion.antt =====
-- The inverse of a Vandermonde matrix takes the values of a polynomial to its coefficients.
use Prim.Native.Nat.{bit_xor}
use suwappu_lattice_protocol.Prelude.{
  ℕ, suc, ◌+◌, ◌<◌, ◌≤◌, ◌≡◌, refl, sym, ap, ◌∙◌, subst, List, [], ◌∷◌, ◌++◌, map, length,
  length-append, drop, ok, arith,
}
use mathlib.Core.List.{append_assoc}
use suwappu_lattice_protocol.Galois.{entry}
use suwappu_lattice_protocol.Galois.Xor.{zero-bit_xor, bit_xor_self, xor-eq_zero}
use suwappu_lattice_protocol.Erasure.{
  alpha_powers, sum_products, unit_row, augmented, invert_vandermonde,
}
use suwappu_lattice_protocol.Erasure.Rows.{AllBytes, dot, sum_products-dot, dot-byte, append-bytes}
use suwappu_lattice_protocol.Erasure.Units.{IsUnit, dot-unit, dot-append}
use suwappu_lattice_protocol.Erasure.Pivots.{All}
use suwappu_lattice_protocol.Erasure.Elimination.{AllFrom, Orthogonal}
use suwappu_lattice_protocol.Erasure.Reduction.{eliminate-Reduced}
use suwappu_lattice_protocol.Erasure.Roots.{Each, IsRising}
use suwappu_lattice_protocol.Erasure.Augmented.{
  dot-unit_row, length-alpha_powers, alpha_powers-bytes, augmented-Stage, augmented-FullRank,
}

-- The values at some points.
unfoldable pub evaluate : ℕ → List ℕ → List ℕ → List ℕ
evaluate k c [] = []
evaluate k c (a ∷ alphas) = sum_products 0 (alpha_powers 1 a k) c ∷ evaluate k c alphas

length-evaluate : (k : ℕ) (c alphas : List ℕ) → length (evaluate k c alphas) ≡ length alphas
unfolding evaluate
length-evaluate k c [] = refl
length-evaluate k c (a ∷ alphas) = ap suc (length-evaluate k c alphas)

sum_products-zero : (xs ys : List ℕ) → sum_products 0 xs ys ≡ dot xs ys
sum_products-zero xs ys = sum_products-dot 0 xs ys ∙ zero-bit_xor (dot xs ys)

evaluate-bytes :
    (k : ℕ) (c alphas : List ℕ)
    → AllBytes c
    → Each (λ a. a < 256) alphas
    → AllBytes (evaluate k c alphas)
unfolding evaluate
evaluate-bytes k c [] b h = tt
evaluate-bytes k c (a ∷ alphas) b (ha, h) = (
  subst (λ x. x < 256) (sym (sum_products-zero (alpha_powers 1 a k) c))
      (dot-byte (alpha_powers 1 a k) c (alpha_powers-bytes 1 a k (omega arith) ha) b),
  evaluate-bytes k c alphas b h,
)

augmented-orthogonal :
    (k i : ℕ) (alphas c y : List ℕ)
    → length c ≡ k
    → length y ≡ k
    → AllBytes y
    → i + length alphas ≤ k
    → ((j : ℕ) → j < length alphas → entry y (i + j) ≡ entry (evaluate k c alphas) j)
    → All (Orthogonal (c ++ y)) (augmented k i alphas)
unfolding augmented evaluate entry
augmented-orthogonal k i [] c y n m b fits same = tt
augmented-orthogonal k i (a ∷ alphas) c y n m b fits same =
    let e : i + 0 ≡ i = omega arith in
    let here : entry y i ≡ dot (alpha_powers 1 a k) c =
      ap (entry y) (sym e) ∙ same 0 (omega arith) ∙ sum_products-zero (alpha_powers 1 a k) c in
    (
      dot-append (alpha_powers 1 a k) (unit_row i k) c y (length-alpha_powers 1 a k ∙ sym n)
          ∙ ap (bit_xor (dot (alpha_powers 1 a k) c))
              (dot-unit_row k i y (omega (arith, fits)) m b ∙ here)
          ∙ bit_xor_self (dot (alpha_powers 1 a k) c),
      augmented-orthogonal k (suc i) alphas c y n m b (omega (arith, fits)) (λ j lt.
          let e' : i + suc j ≡ suc i + j = omega arith in
          ap (entry y) (sym e') ∙ same (suc j) (omega arith)),
    )

-- The products of the rows of a matrix with a vector.
unfoldable pub solve : List (List ℕ) → List ℕ → List ℕ
solve [] y = []
solve (r ∷ rows) y = sum_products 0 r y ∷ solve rows y

entry-append : (pre suf : List ℕ) (x : ℕ) → entry (pre ++ (x ∷ suf)) (length pre) ≡ x
unfolding entry
entry-append [] suf x = refl
entry-append (a ∷ pre) suf x = entry-append pre suf x

solve_rows :
    (pre suf c y : List ℕ) (rows : List (List ℕ))
    → c ≡ pre ++ suf
    → length rows ≡ length suf
    → AllBytes c
    → AllFrom (IsUnit (length c)) (length pre) rows
    → All (Orthogonal (c ++ y)) rows
    → solve (map (drop (length c)) rows) y ≡ suf
unfolding solve
solve_rows pre [] c y [] e n b u o = refl
solve_rows pre [] c y (r ∷ rows) e n b u o = absurd (omega arith)
solve_rows pre (x ∷ suf) c y [] e n b u o = absurd (omega arith)
solve_rows pre (x ∷ suf) c y (r ∷ rows) e n b (ur, u) (or_, o) =
    let here : sum_products 0 (drop (length c) r) y ≡ x =
      sum_products-zero (drop (length c) r) y
      ∙ sym (
          xor-eq_zero (entry c (length pre)) (dot (drop (length c) r) y)
            (sym (dot-unit (length pre) c y r b ur) ∙ or_))
      ∙ ap (λ l. entry l (length pre)) e
      ∙ entry-append pre suf x in
    let longer : suc (length pre) ≡ length (pre ++ (x ∷ [])) =
      omega (arith, length-append pre (x ∷ [])) in
    let rest =
      solve_rows (pre ++ (x ∷ [])) suf c y rows (e ∙ sym (append_assoc pre (x ∷ []) suf))
        (omega (arith, n)) b (subst (λ i. AllFrom (IsUnit (length c)) i rows) longer u) o in
    λ i. here i ∷ rest i

length-map_rows : (k : ℕ) (rows : List (List ℕ)) → length (map (drop k) rows) ≡ length rows
length-map_rows k [] = refl
length-map_rows k (r ∷ rows) = ap suc (length-map_rows k rows)

-- For `k` points below 256 in rising order, the inversion returns a matrix of `k` rows, and it takes
-- the values at these points of any polynomial with `k` coefficients to its coefficients.
pub invert_vandermonde-solve :
    (k : ℕ) (alphas : List ℕ)
    → length alphas ≡ k
    → IsRising alphas
    → Each (λ a. a < 256) alphas
    → (inverse : List (List ℕ)) × (invert_vandermonde alphas k ≡ ok inverse)
      × (length inverse ≡ k)
      × ((c : List ℕ) → length c ≡ k → AllBytes c → solve inverse (evaluate k c alphas) ≡ c)
unfolding invert_vandermonde
invert_vandermonde-solve k alphas n up h =
    let (out, runs, reduced) =
      eliminate-Reduced (k + k) k k 0 [] (augmented k 0 alphas) (omega arith)
        (augmented-Stage k alphas n h) (augmented-FullRank k alphas n up h) in
    (
      map (drop k) out,
      rw runs refl,
      length-map_rows k out ∙ reduced.count,
      λ c long b.
          let y = evaluate k c alphas in
          let ly : length y ≡ k = length-evaluate k c alphas ∙ n in
          let by = evaluate-bytes k c alphas b h in
          let o = reduced.kept (c ++ y) (append-bytes c y b by) tt (
            augmented-orthogonal k 0 alphas c y long ly by (omega (arith, n))
              (λ j lt. let e : 0 + j ≡ j = omega arith in ap (entry y) e)) in
          ap (λ l. solve (map (drop l) out) y) (sym long)
          ∙ solve_rows [] c c y out refl (reduced.count ∙ sym long) b
              (subst (λ l. AllFrom (IsUnit l) 0 out) (sym long) reduced.units) o,
    )
