-- ===== src/Erasure/Augmented.antt =====
-- The augmented matrix of the inversion: its shape, and that only zero is orthogonal to its rows.
use Prim.Native.Nat.{bit_xor}
use suwappu_lattice_protocol.Prelude.{
  ℕ, zero, suc, ◌+◌, ◌<◌, ◌≡◌, refl, sym, ap, ◌∙◌, subst, List, [], ◌∷◌, ◌++◌, length,
  length-append, drop, replicate, ◌==◌, if◌then◌else◌, arith,
}
use mathlib.Core.List.{append-nil}
use suwappu_lattice_protocol.Galois.{entry, gf_mul}
use suwappu_lattice_protocol.Galois.Xor.{bit_xor-zero}
use suwappu_lattice_protocol.Galois.Field.{gf_mul-byte, one-gf_mul}
use suwappu_lattice_protocol.Erasure.{alpha_powers, unit_row, augmented}
use suwappu_lattice_protocol.Erasure.Rows.{AllBytes, dot, append-bytes}
use suwappu_lattice_protocol.Erasure.Units.{
  IsUnit, replicate-IsZeros, dot-zeros, dot-unit, dot-append,
}
use suwappu_lattice_protocol.Erasure.Pivots.{All, Fits}
use suwappu_lattice_protocol.Erasure.Elimination.{Stage, Orthogonal}
use suwappu_lattice_protocol.Erasure.Reduction.{FullRank}
use suwappu_lattice_protocol.Erasure.Roots.{
  value, value-byte, dot-alpha_powers, Each, IsRising, roots-IsZeros,
}
use suwappu_lattice_protocol.Erasure.Ranges.{length-map-range, entry-map-range, map-range-bytes}

bit : ℕ → ℕ → ℕ
bit i j = if j == i then 1 else 0

bit-byte : (i j : ℕ) → bit i j < 256
unfolding bit
bit-byte i j = ground arith

unit_row-IsUnit : (k i : ℕ) → i < k → IsUnit k i (unit_row i k)
unfolding unit_row
unit_row-IsUnit k i lt = record {
  inside = lt;
  one = entry-map-range (λ j. if j == i then 1 else 0) 0 k i lt ∙ ground arith;
  others =
      λ j small ne. entry-map-range (λ j. if j == i then 1 else 0) 0 k j small ∙ ground (arith, ne);
}

unit_row-Fits : (k i : ℕ) → Fits k (unit_row i k)
unfolding unit_row bit
unit_row-Fits k i = (
  length-map-range (λ j. if j == i then 1 else 0) 0 k,
  map-range-bytes (λ j. if j == i then 1 else 0) 0 k (bit-byte i),
)

pub dot-unit_row :
    (k i : ℕ) (y : List ℕ) → i < k → length y ≡ k → AllBytes y → dot (unit_row i k) y ≡ entry y i
unfolding dot
dot-unit_row k i y lt n h =
    ap (dot (unit_row i k)) (sym (append-nil y))
    ∙ dot-unit i y [] (unit_row i k) h
        (subst (λ c. IsUnit c i (unit_row i k)) (sym n) (unit_row-IsUnit k i lt))
    ∙ ap (bit_xor (entry y i)) (dot-zeros (drop (length y) (unit_row i k)) [] tt)
    ∙ bit_xor-zero (entry y i)

pub length-alpha_powers : (p a k : ℕ) → length (alpha_powers p a k) ≡ k
unfolding alpha_powers
length-alpha_powers p a zero = refl
length-alpha_powers p a (suc k) = ap suc (length-alpha_powers (gf_mul p a) a k)

pub alpha_powers-bytes : (p a k : ℕ) → p < 256 → a < 256 → AllBytes (alpha_powers p a k)
unfolding alpha_powers
alpha_powers-bytes p a zero hp ha = tt
alpha_powers-bytes p a (suc k) hp ha =
    (hp, alpha_powers-bytes (gf_mul p a) a k (gf_mul-byte p a hp ha) ha)

length-augmented : (k i : ℕ) (alphas : List ℕ) → length (augmented k i alphas) ≡ length alphas
unfolding augmented
length-augmented k i [] = refl
length-augmented k i (a ∷ alphas) = ap suc (length-augmented k (suc i) alphas)

augmented-Fits :
    (k i : ℕ) (alphas : List ℕ)
    → Each (λ a. a < 256) alphas
    → All (Fits (k + k)) (augmented k i alphas)
unfolding augmented
augmented-Fits k i [] h = tt
augmented-Fits k i (a ∷ alphas) (ha, h) =
    let u = unit_row-Fits k i in
    (
      (
        length-append (alpha_powers 1 a k) (unit_row i k)
            ∙ omega (arith, length-alpha_powers 1 a k, u.0),
        append-bytes (alpha_powers 1 a k) (unit_row i k) (alpha_powers-bytes 1 a k (omega arith) ha)
            u.1,
      ),
      augmented-Fits k (suc i) alphas h,
    )

all-clear : (rows : List (List ℕ)) → All (λ r. (j : ℕ) → j < 0 → entry r j ≡ 0) rows
all-clear [] = tt
all-clear (r ∷ rows) = ((λ j lt. absurd (omega (arith, lt))), all-clear rows)

pub augmented-Stage :
    (k : ℕ) (alphas : List ℕ)
    → length alphas ≡ k
    → Each (λ a. a < 256) alphas
    → Stage (k + k) k 0 [] (augmented k 0 alphas)
augmented-Stage k alphas n h = record {
  count_above = refl;
  count_rows = length-augmented k 0 alphas ∙ n;
  fits_above = tt;
  fits_rows = augmented-Fits k 0 alphas h;
  units = tt;
  clears = all-clear (augmented k 0 alphas);
}

value-powers :
    (k a : ℕ) (c : List ℕ)
    → length c ≡ k
    → a < 256
    → AllBytes c
    → dot (alpha_powers 1 a k) c ≡ value c a
value-powers k a c n ha h =
    dot-alpha_powers 1 a k c n (omega arith) ha h ∙ one-gf_mul (value c a) (value-byte c a h ha)

augmented-roots :
    (k i : ℕ) (alphas v : List ℕ)
    → length v ≡ k
    → AllBytes v
    → Each (λ a. a < 256) alphas
    → All (Orthogonal (v ++ replicate k 0)) (augmented k i alphas)
    → Each (λ a. value v a ≡ 0) alphas
unfolding augmented
augmented-roots k i [] v n b h o = tt
augmented-roots k i (a ∷ alphas) v n b (ha, h) (oa, o) = (
  sym (value-powers k a v n ha b)
      ∙ sym (bit_xor-zero (dot (alpha_powers 1 a k) v))
      ∙ ap (bit_xor (dot (alpha_powers 1 a k) v))
          (sym (dot-zeros (unit_row i k) (replicate k 0) (replicate-IsZeros k)))
      ∙ sym (
          dot-append (alpha_powers 1 a k) (unit_row i k) v (replicate k 0)
            (length-alpha_powers 1 a k ∙ sym n))
      ∙ oa,
  augmented-roots k (suc i) alphas v n b h o,
)

pub augmented-FullRank :
    (k : ℕ) (alphas : List ℕ)
    → length alphas ≡ k
    → IsRising alphas
    → Each (λ a. a < 256) alphas
    → FullRank k [] (augmented k 0 alphas)
augmented-FullRank k alphas n up h v long b ha hr =
    roots-IsZeros alphas v up h b (omega (arith, long, n))
      (augmented-roots k 0 alphas v long b h hr)
