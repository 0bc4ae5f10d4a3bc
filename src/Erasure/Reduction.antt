-- ===== src/Erasure/Reduction.antt =====
-- Elimination over a matrix of full rank runs to the end.
use Prim.Native.Nat.{bit_xor}
use suwappu_lattice_protocol.Prelude.{
  ℕ, zero, suc, ◌+◌, ◌<◌, ◌≡◌, refl, sym, ap, ◌∙◌, subst, Option, none, some, List, [], ◌∷◌, ◌++◌,
  length, length-append, replicate, ok, arith,
}
use mathlib.Core.List.{append-nil, append_assoc}
use suwappu_lattice_protocol.Galois.{entry, gf_mul}
use suwappu_lattice_protocol.Galois.Xor.{bit_xor_self}
use suwappu_lattice_protocol.Galois.Field.{zero-gf_mul, gf_mul_comm, one-gf_mul, gf_inv-gf_mul}
use suwappu_lattice_protocol.Erasure.{pivot, found_pivot, eliminate}
use suwappu_lattice_protocol.Erasure.Rows.{AllBytes, entry-byte, append-bytes}
use suwappu_lattice_protocol.Erasure.Units.{
  IsClear, IsUnit, IsZeros, replicate-IsZeros, append-IsZeros, dot-drop_zeros, dot-clear, dot-unit,
}
use suwappu_lattice_protocol.Erasure.Pivots.{All, Found, no_pivot, pivot_at, pivot-Found, Fits}
use suwappu_lattice_protocol.Erasure.Elimination
use suwappu_lattice_protocol.Erasure.Elimination.{AllFrom, Stage, Orthogonal}

-- No combination of the columns of the left half is zero, but that of zeros.
abbrev pub FullRank : ℕ → List (List ℕ) → List (List ℕ) → Type 0
FullRank k above rows =
    (v : List ℕ)
    → length v ≡ k
    → AllBytes v
    → All (Orthogonal (v ++ replicate k 0)) above
    → All (Orthogonal (v ++ replicate k 0)) rows
    → IsZeros v

entry_column : ℕ → List (List ℕ) → List ℕ
entry_column col [] = []
entry_column col (r ∷ rows) = entry r col ∷ entry_column col rows

length-entry_column :
    (col : ℕ) (rows : List (List ℕ)) → length (entry_column col rows) ≡ length rows
unfolding entry_column
length-entry_column col [] = refl
length-entry_column col (r ∷ rows) = ap suc (length-entry_column col rows)

entry_column-bytes :
    (width col : ℕ) (rows : List (List ℕ))
    → All (Fits width) rows
    → AllBytes (entry_column col rows)
unfolding entry_column
entry_column-bytes width col [] h = tt
entry_column-bytes width col (r ∷ rows) (f, h) =
    (entry-byte r col f.1, entry_column-bytes width col rows h)

pub replicate-bytes : (n : ℕ) → AllBytes (replicate n 0)
replicate-bytes zero = tt
replicate-bytes (suc n) = (omega arith, replicate-bytes n)

pub length-replicate : (n : ℕ) → length {A = ℕ} (replicate n 0) ≡ n
length-replicate zero = refl
length-replicate (suc n) = ap suc (length-replicate n)

zeros-entry : (u zs : List ℕ) (x : ℕ) → IsZeros (u ++ (x ∷ zs)) → x ≡ 0
zeros-entry [] zs x (e, h) = e
zeros-entry (a ∷ u) zs x (e, h) = zeros-entry u zs x h

-- Where the rows from a column on have no pivot, the column is a combination of those before.
module _ (u zs : List ℕ) (bytes : AllBytes u) (zeros : IsZeros zs) where
  below_orthogonal :
      (rows : List (List ℕ))
      → All (IsClear (length u)) rows
      → All (λ r. entry r (length u) ≡ 0) rows
      → All (Orthogonal (u ++ (1 ∷ zs))) rows
  below_orthogonal [] c h = tt
  below_orthogonal (r ∷ rows) (cr, c) (z, h) = (
    dot-clear u (1 ∷ zs) r cr
        ∙ dot-drop_zeros (length u) r zs 1 zeros
        ∙ ap (λ x. gf_mul x 1) z
        ∙ zero-gf_mul 1,
    below_orthogonal rows c h,
  )

  above_orthogonal :
      (width i : ℕ) (rows : List (List ℕ))
      → All (Fits width) rows
      → AllFrom (IsUnit (length u)) i rows
      → ((j : ℕ) → j < length rows → entry u (i + j) ≡ entry (entry_column (length u) rows) j)
      → All (Orthogonal (u ++ (1 ∷ zs))) rows
  unfolding entry_column entry
  above_orthogonal width i [] f h same = tt
  above_orthogonal width i (r ∷ rows) (fr, f) (ur, h) same =
      let e : i + 0 ≡ i = omega arith in
      let here : entry u i ≡ entry r (length u) =
        subst (λ j. entry u j ≡ entry r (length u)) e (same 0 (omega arith)) in
      (
        dot-unit i u (1 ∷ zs) r bytes ur
            ∙ ap (bit_xor (entry u i)) (
                dot-drop_zeros (length u) r zs 1 zeros
                ∙ gf_mul_comm (entry r (length u)) 1
                ∙ one-gf_mul (entry r (length u)) (entry-byte r (length u) fr.1)
                ∙ sym here)
            ∙ bit_xor_self (entry u i),
        above_orthogonal width (suc i) rows f h (λ j lt.
            let e' : i + suc j ≡ suc i + j = omega arith in
            subst (λ m. entry u m ≡ entry (entry_column (length u) rows) j) e'
              (same (suc j) (omega arith))),
      )

no_pivot-absurd :
    (width k n col : ℕ) (above rows : List (List ℕ))
    → suc n + col ≡ k
    → Stage width (suc n) col above rows
    → FullRank k above rows
    → All (λ r. entry r col ≡ 0) rows
    → ◌≡◌ {A = ℕ} 0 1
no_pivot-absurd width k n col above rows size stage rank none_left =
    let u = entry_column col above in
    let at : length u ≡ col = length-entry_column col above ∙ stage.count_above in
    let v = u ++ (1 ∷ replicate n 0) in
    let zs : List ℕ = replicate n 0 ++ replicate k 0 in
    let zeros : IsZeros zs =
      append-IsZeros (replicate n 0) (replicate k 0) (replicate-IsZeros n) (replicate-IsZeros k) in
    let bytes = entry_column-bytes width col above stage.fits_above in
    let whole : v ++ replicate k 0 ≡ u ++ (1 ∷ zs) =
      append_assoc u (1 ∷ replicate n 0) (replicate k 0) in
    let long : length v ≡ k =
      omega (arith, length-append u (1 ∷ replicate n 0), at, length-replicate n, size) in
    let below =
      below_orthogonal u zs bytes zeros rows
        (subst (λ c. All (IsClear c) rows) (sym at) stage.clears)
        (subst (λ c. All (λ r. entry r c ≡ 0) rows) (sym at) none_left) in
    let over =
      above_orthogonal u zs bytes zeros width 0 above stage.fits_above
        (subst (λ c. AllFrom (IsUnit c) 0 above) (sym at) stage.units)
        (λ j lt.
          let e : 0 + j ≡ j = omega arith in
          ap (entry u) e ∙ ap (λ c. entry (entry_column c above) j) (sym at)) in
    sym (
      zeros-entry u (replicate n 0) 1 (
        rank v long (append-bytes u (1 ∷ replicate n 0) bytes (omega arith, replicate-bytes n))
          (subst (λ w. All (Orthogonal w) above) (sym whole) over)
          (subst (λ w. All (Orthogonal w) rows) (sym whole) below)))

-- What elimination ends with.
pub record Reduced (width k : ℕ) (above rows out : List (List ℕ)) : Type 0 where
  pub count : length out ≡ k
  pub fits : All (Fits width) out
  pub units : AllFrom (IsUnit k) 0 out
  pub kept :
      (w : List ℕ)
      → AllBytes w
      → All (Orthogonal w) above
      → All (Orthogonal w) rows
      → All (Orthogonal w) out

-- That the elimination of some columns runs to the end.
abbrev Reduces : ℕ → ℕ → ℕ → ℕ → Type 0
Reduces width k n col =
    (above rows : List (List ℕ))
    → n + col ≡ k
    → Stage width n col above rows
    → FullRank k above rows
    → (out : List (List ℕ)) × (eliminate n col above rows ≡ ok out) × Reduced width k above rows out

module _ (width k n col : ℕ) (above rows : List (List ℕ)) (size : suc n + col ≡ k)
    (stage : Stage width (suc n) col above rows) (rank : FullRank k above rows)
    (later : Reduces width k n (suc col)) where
  reduce_at :
      (o : Option (List ℕ × List (List ℕ)))
      → pivot col rows ≡ o
      → Found col rows o
      → (out : List (List ℕ)) × (eliminate (suc n) col above rows ≡ ok out)
        × Reduced width k above rows out
  unfolding eliminate found_pivot Elimination.next_above Elimination.next_rows Elimination.scaled
  reduce_at none e (no_pivot h) =
      absurd
        (let f = no_pivot-absurd width k n col above rows size stage rank h in omega (arith, f))
  reduce_at (some (p, others)) e (pivot_at ne split) =
      let fp = (split.forth (Fits width) stage.fits_rows).0 in
      let (b, ib, byte, inverse) = gf_inv-gf_mul (entry p col) ne (entry-byte p col fp.1) in
      let kept = Elimination.next_kept width n col above rows stage p others split b byte inverse in
      let back = Elimination.next_back width n col above rows stage p others split b byte inverse in
      let (out, runs, reduced) =
        later _ _ (omega (arith, size))
          (Elimination.next-Stage width n col above rows stage p others split b byte inverse)
          (λ v long bytes ha hr.
            let (a, r) =
              back (v ++ replicate k 0) (append-bytes v (replicate k 0) bytes (replicate-bytes k))
                ha hr in
            rank v long bytes a r) in
      (
        out,
        rw (e, ib) runs,
        record {
          count = reduced.count;
          fits = reduced.fits;
          units = reduced.units;
          kept = λ w bw ha hr. let (a, r) = kept w bw ha hr in reduced.kept w bw a r;
        },
      )

pub eliminate-Reduced : (width k n col : ℕ) → Reduces width k n col
unfolding eliminate
eliminate-Reduced width k zero col above (r ∷ rows) size stage rank =
    absurd (let c = stage.count_rows in omega (arith, c))
eliminate-Reduced width k zero col above [] size stage rank =
    let e : col ≡ k = omega (arith, size) in
    (
      above,
      ap ok (append-nil above),
      record {
        count = stage.count_above ∙ e;
        fits = stage.fits_above;
        units = subst (λ c. AllFrom (IsUnit c) 0 above) e stage.units;
        kept = λ w bw ha hr. ha;
      },
    )
eliminate-Reduced width k (suc n) col above rows size stage rank =
    reduce_at width k n col above rows size stage rank (eliminate-Reduced width k n (suc col))
      (pivot col rows) refl (pivot-Found col rows)
