-- ===== src/Erasure/Elimination.antt =====
-- Gauss-Jordan elimination over a matrix of full rank: it returns the unit matrix, and rows with the
-- same solutions.
use suwappu_lattice_protocol.Prelude.{
  ℕ, suc, ◌+◌, ◌<◌, ◌≡◌, ◌≢◌, refl, sym, ap, ◌∙◌, subst, List, [], ◌∷◌, ◌++◌, map, length,
  length-append, ==-cases, inl, inr, arith,
}
use suwappu_lattice_protocol.Galois.{entry, gf_mul}
use suwappu_lattice_protocol.Galois.Field.{zero-gf_mul, gf_mul_comm, gf_mul-eq_zero}
use suwappu_lattice_protocol.Erasure.{scale, clear}
use suwappu_lattice_protocol.Erasure.Rows.{
  AllBytes, dot, dot-byte, length-scale, scale-bytes, dot-scale, entry-scale,
}
use suwappu_lattice_protocol.Erasure.Units.{IsClear, IsUnit}
use suwappu_lattice_protocol.Erasure.Pivots.{
  All, All-map, All-append, All-and, Splits, Fits, clear-Fits, dot-clear_row, entry-clear_zero,
  entry-clear_pivot,
}

-- A statement of every row and its number, counted from a first one.
abbrev pub AllFrom : (ℕ → List ℕ → Type 0) → ℕ → List (List ℕ) → Type 0
AllFrom P i [] = Unit
AllFrom P i (r ∷ rows) = P i r × AllFrom P (suc i) rows

pub AllFrom-map :
    (P Q : ℕ → List ℕ → Type 0) (F : List ℕ → Type 0) (f : List ℕ → List ℕ) (i : ℕ)
    (rows : List (List ℕ))
    → ((j : ℕ) (r : List ℕ) → F r → P j r → Q j (f r))
    → All F rows
    → AllFrom P i rows
    → AllFrom Q i (map f rows)
AllFrom-map P Q F f i [] g h k = tt
AllFrom-map P Q F f i (r ∷ rows) g (fr, h) (p, k) =
    (g i r fr p, AllFrom-map P Q F f (suc i) rows g h k)

AllFrom-snoc :
    (P : ℕ → List ℕ → Type 0) (i : ℕ) (rows : List (List ℕ)) (p : List ℕ)
    → AllFrom P i rows
    → P (i + length rows) p
    → AllFrom P i (rows ++ (p ∷ []))
AllFrom-snoc P i [] p h k = (let e : i + 0 ≡ i = omega arith in subst (λ j. P j p) e k, tt)
AllFrom-snoc P i (r ∷ rows) p (h, hs) k =
    let e : i + suc (length rows) ≡ suc i + length rows = omega arith in
    (h, AllFrom-snoc P (suc i) rows p hs (subst (λ j. P j p) e k))

All-unmap :
    (P Q F : List ℕ → Type 0) (f : List ℕ → List ℕ) (rows : List (List ℕ))
    → ((r : List ℕ) → F r → Q (f r) → P r)
    → All F rows
    → All Q (map f rows)
    → All P rows
All-unmap P Q F f [] g h k = tt
All-unmap P Q F f (r ∷ rows) g (fr, h) (q, k) = (g r fr q, All-unmap P Q F f rows g h k)

All-left : (P : List ℕ → Type 0) (rs ss : List (List ℕ)) → All P (rs ++ ss) → All P rs × All P ss
All-left P [] ss h = (tt, h)
All-left P (r ∷ rs) ss (p, h) = let (a, b) = All-left P rs ss h in ((p, a), b)

pub length-map : (f : List ℕ → List ℕ) (rows : List (List ℕ)) → length (map f rows) ≡ length rows
length-map f [] = refl
length-map f (r ∷ rows) = ap suc (length-map f rows)

-- The matrix before a column: its unit columns and what is to come.
pub record Stage (width n col : ℕ) (above rows : List (List ℕ)) : Type 0 where
  pub count_above : length above ≡ col
  pub count_rows : length rows ≡ n
  pub fits_above : All (Fits width) above
  pub fits_rows : All (Fits width) rows
  pub units : AllFrom (IsUnit col) 0 above
  pub clears : All (IsClear col) rows

abbrev pub Orthogonal : List ℕ → List ℕ → Type 0
Orthogonal w r = dot r w ≡ 0

-- One column, with its pivot and the inverse of that.
module _ (width n col : ℕ) (above rows : List (List ℕ)) (stage : Stage width (suc n) col above rows)
    (p : List ℕ) (others : List (List ℕ)) (split : Splits rows p others) (b : ℕ) (byte : b < 256)
    (inverse : gf_mul b (entry p col) ≡ 1) where
  unfoldable pub scaled : List ℕ
  scaled = scale b p

  p-Fits : Fits width p
  p-Fits = (split.forth (Fits width) stage.fits_rows).0

  scaled-Fits : Fits width scaled
  unfolding scaled
  scaled-Fits = (length-scale b p ∙ p-Fits.0, scale-bytes b p byte p-Fits.1)

  scaled-IsClear : IsClear col scaled
  unfolding scaled
  scaled-IsClear j lt =
      entry-scale b p j
      ∙ ap (λ x. gf_mul x b) ((split.forth (IsClear col) stage.clears).0 j lt)
      ∙ zero-gf_mul b

  scaled-one : entry scaled col ≡ 1
  unfolding scaled
  scaled-one = entry-scale b p col ∙ gf_mul_comm (entry p col) b ∙ inverse

  cleared : (r : List ℕ) → Fits width r → Fits width (clear col scaled r)
  cleared r f = clear-Fits width col scaled r scaled-Fits f

  IsUnit-next :
      (i : ℕ) (r : List ℕ) → Fits width r → IsUnit col i r → IsUnit (suc col) i (clear col scaled r)
  IsUnit-next i r f u = record {
    inside = let k = u.inside in omega (arith, k);
    one = entry-clear_zero width col i scaled r scaled-Fits f (scaled-IsClear i u.inside) ∙ u.one;
    others = λ j lt ne. elim (==-cases j col) [
      | inl (e, _) ↦
          subst (λ c. entry (clear col scaled r) c ≡ 0) (sym e)
            (entry-clear_pivot width col scaled r scaled-Fits f scaled-one)
      | inr (below, _) ↦
          let small : j < col = omega (arith, lt, below) in
          entry-clear_zero width col j scaled r scaled-Fits f (scaled-IsClear j small)
          ∙ u.others j small ne
    ];
  }

  clear-next : (r : List ℕ) → Fits width r × IsClear col r → IsClear (suc col) (clear col scaled r)
  clear-next r (f, c) j lt = elim (==-cases j col) [
    | inl (e, _) ↦
        subst (λ c. entry (clear col scaled r) c ≡ 0) (sym e)
          (entry-clear_pivot width col scaled r scaled-Fits f scaled-one)
    | inr (below, _) ↦
        let small : j < col = omega (arith, lt, below) in
        entry-clear_zero width col j scaled r scaled-Fits f (scaled-IsClear j small) ∙ c j small
  ]

  unfoldable pub next_above : List (List ℕ)
  next_above = map (clear col scaled) above ++ (scaled ∷ [])

  unfoldable pub next_rows : List (List ℕ)
  next_rows = map (clear col scaled) others

  pub next-Stage : Stage width n (suc col) next_above next_rows
  unfolding next_above next_rows
  next-Stage = record {
    count_above =
        let c = stage.count_above in
        omega (
          arith,
          c,
          length-append (map (clear col scaled) above) (scaled ∷ []),
          length-map (clear col scaled) above,
        );
    count_rows =
        let c = stage.count_rows in
        let d = split.count in omega (arith, c, d, length-map (clear col scaled) others);
    fits_above =
        All-append (Fits width) (map (clear col scaled) above) (scaled ∷ [])
          (All-map (Fits width) (Fits width) (clear col scaled) above cleared stage.fits_above)
          (scaled-Fits, tt);
    fits_rows =
        All-map (Fits width) (Fits width) (clear col scaled) others cleared
          (split.forth (Fits width) stage.fits_rows).1;
    units =
        AllFrom-snoc (IsUnit (suc col)) 0 (map (clear col scaled) above) scaled
          (AllFrom-map (IsUnit col) (IsUnit (suc col)) (Fits width) (clear col scaled) 0 above
            IsUnit-next stage.fits_above stage.units)
          (let e : col ≡ 0 + length (map (clear col scaled) above) =
              let c = stage.count_above in omega (arith, c, length-map (clear col scaled) above) in
            subst (λ i. IsUnit (suc col) i scaled) e
              (record {
                inside = omega arith;
                one = scaled-one;
                others = λ j lt ne. scaled-IsClear j (omega (arith, lt, ne));
              }));
    clears =
        All-map (λ r. Fits width r × IsClear col r) (IsClear (suc col)) (clear col scaled) others
          clear-next
          (All-and (Fits width) (IsClear col) others (split.forth (Fits width) stage.fits_rows).1
            (split.forth (IsClear col) stage.clears).1);
  }

  -- What is orthogonal to all rows stays so.
  pub next_kept :
      (w : List ℕ)
      → AllBytes w
      → All (Orthogonal w) above
      → All (Orthogonal w) rows
      → All (Orthogonal w) next_above × All (Orthogonal w) next_rows
  unfolding next_above next_rows scaled
  next_kept w bw ha hr =
      let (op, oo) = split.forth (Orthogonal w) hr in
      let os : dot scaled w ≡ 0 =
        dot-scale b p w byte p-Fits.1 bw ∙ ap (λ x. gf_mul x b) op ∙ zero-gf_mul b in
      let f : (r : List ℕ) → Fits width r × Orthogonal w r → Orthogonal w (clear col scaled r) =
        λ r (g, o). dot-clear_row width col scaled r w scaled-Fits g bw os ∙ o in
      let fo = (split.forth (Fits width) stage.fits_rows).1 in
      (
        All-append (Orthogonal w) (map (clear col scaled) above) (scaled ∷ [])
            (All-map (λ r. Fits width r × Orthogonal w r) (Orthogonal w) (clear col scaled) above f
              (All-and (Fits width) (Orthogonal w) above stage.fits_above ha))
            (os, tt),
        All-map (λ r. Fits width r × Orthogonal w r) (Orthogonal w) (clear col scaled) others f
            (All-and (Fits width) (Orthogonal w) others fo oo),
      )

  -- And it was so before.
  pub next_back :
      (w : List ℕ)
      → AllBytes w
      → All (Orthogonal w) next_above
      → All (Orthogonal w) next_rows
      → All (Orthogonal w) above × All (Orthogonal w) rows
  unfolding next_above next_rows scaled
  next_back w bw ha hr =
      let (below, (os, _)) =
        All-left (Orthogonal w) (map (clear col scaled) above) (scaled ∷ []) ha in
      let some_b : b ≢ 0 = λ z.
        let f : 0 ≡ 1 =
          sym (zero-gf_mul (entry p col)) ∙ ap (λ x. gf_mul x (entry p col)) (sym z) ∙ inverse in
        omega (arith, f) in
      let op : dot p w ≡ 0 =
        gf_mul-eq_zero b (dot p w) some_b byte (dot-byte p w p-Fits.1 bw)
          (gf_mul_comm b (dot p w) ∙ sym (dot-scale b p w byte p-Fits.1 bw) ∙ os) in
      let f : (r : List ℕ) → Fits width r → Orthogonal w (clear col scaled r) → Orthogonal w r =
        λ r g o. sym (dot-clear_row width col scaled r w scaled-Fits g bw os) ∙ o in
      let fo = (split.forth (Fits width) stage.fits_rows).1 in
      (
        All-unmap (Orthogonal w) (Orthogonal w) (Fits width) (clear col scaled) above f
            stage.fits_above below,
        split.back (Orthogonal w) op (
            All-unmap (Orthogonal w) (Orthogonal w) (Fits width) (clear col scaled) others f fo hr),
      )
