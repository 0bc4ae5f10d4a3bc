-- ===== src/Erasure/Layout.antt =====
-- Padding, slicing and the columns of the slices.
use native.Mathlib.Nat.{div-add-mod', div-eq_of_eq-mul_left, mod-lt}
use mathlib.Core.List.{append-nil}
use suwappu_lattice_protocol.Prelude.{
  ℕ, zero, suc, ◌+◌, ◌-◌, ◌*◌, ◌/◌, ◌%◌, ◌<◌, ◌≡◌, refl, sym, ap, ◌∙◌, List, [], ◌∷◌, ◌++◌, map,
  length, length-append, length-take_of_le, length-drop, take, drop, take-append-drop, replicate,
  ==-cases, inl, inr, Bytes, arith,
}
use suwappu_lattice_protocol.Galois.{entry}
use suwappu_lattice_protocol.Erasure.{pad, chunks, column, combine, concat, sum_products}
use suwappu_lattice_protocol.Erasure.Rows.{AllBytes, entry-byte}
use suwappu_lattice_protocol.Erasure.Reduction.{length-replicate}
use suwappu_lattice_protocol.Erasure.Inversion.{solve}
use suwappu_lattice_protocol.Erasure.Ranges.{length-map-range, entry-map-range, map-range-entries}

-- Some zeros fill the bytes up to a multiple of the number of slices.
pub pad-zeros :
    (xs : Bytes) (k : ℕ)
    → 0 < k
    → (m : ℕ) × (pad xs k ≡ xs ++ replicate m 0)
      × (length (pad xs k) ≡ length (pad xs k) / k * k)
      × (m < k)
unfolding pad
pad-zeros xs k pos = elim (==-cases (length xs % k) 0) [
  | inl (e, b) ↦
      (0, rw b (sym (append-nil xs)), rw b (omega (arith, e, div-add-mod' (length xs) k)), pos)
  | inr (ne, b) ↦
      let m = k - length xs % k in
      let small = mod-lt (length xs) pos in
      let grown : (length xs / k + 1) * k ≡ length xs / k * k + k = grind arith in
      let whole : length (xs ++ replicate m 0) ≡ (length xs / k + 1) * k = omega (
        arith,
        length-append xs (replicate m 0),
        length-replicate m,
        div-add-mod' (length xs) k,
        small,
        grown,
      ) in
      (
        m,
        rw b refl,
        rw b (whole ∙ ap (λ q. q * k) (sym (div-eq_of_eq-mul_left pos whole))),
        omega (arith, ne),
      )
]

abbrev pub AllSized : ℕ → List Bytes → Type 0
AllSized size [] = Unit
AllSized size (c ∷ cs) = ((length c ≡ size) × AllBytes c) × AllSized size cs

take-bytes : (n : ℕ) (xs : Bytes) → AllBytes xs → AllBytes (take n xs)
take-bytes zero xs h = tt
take-bytes (suc n) [] h = tt
take-bytes (suc n) (x ∷ xs) (hx, h) = (hx, take-bytes n xs h)

drop-bytes : (n : ℕ) (xs : Bytes) → AllBytes xs → AllBytes (drop n xs)
drop-bytes zero xs h = h
drop-bytes (suc n) [] h = tt
drop-bytes (suc n) (x ∷ xs) (hx, h) = drop-bytes n xs h

pub length-chunks : (n size : ℕ) (xs : Bytes) → length (chunks n size xs) ≡ n
unfolding chunks
length-chunks zero size xs = refl
length-chunks (suc n) size xs = ap suc (length-chunks n size (drop size xs))

pub chunks-AllSized :
    (n size : ℕ) (xs : Bytes)
    → length xs ≡ n * size
    → AllBytes xs
    → AllSized size (chunks n size xs)
unfolding chunks
chunks-AllSized zero size xs e h = tt
chunks-AllSized (suc n) size xs e h =
    let grown : suc n * size ≡ size + n * size = grind arith in
    (
      (length-take_of_le size xs (omega (arith, e, grown)), take-bytes size xs h),
      chunks-AllSized n size (drop size xs) (omega (arith, length-drop size xs, e, grown))
          (drop-bytes size xs h),
    )

pub concat-chunks :
    (n size : ℕ) (xs : Bytes) → length xs ≡ n * size → concat (chunks n size xs) ≡ xs
unfolding chunks concat
concat-chunks zero size [] e = refl
concat-chunks zero size (x ∷ xs) e =
    let none_left : 0 * size ≡ 0 = grind arith in absurd (omega (arith, e, none_left))
concat-chunks (suc n) size xs e =
    let grown : suc n * size ≡ size + n * size = grind arith in
    ap (λ l. take size xs ++ l)
      (concat-chunks n size (drop size xs) (omega (arith, length-drop size xs, e, grown)))
    ∙ take-append-drop size xs

pub length-column : (cs : List Bytes) (pos : ℕ) → length (column cs pos) ≡ length cs
unfolding column
length-column [] pos = refl
length-column (c ∷ cs) pos = ap suc (length-column cs pos)

pub column-bytes :
    (size : ℕ) (cs : List Bytes) (pos : ℕ) → AllSized size cs → AllBytes (column cs pos)
unfolding column
column-bytes size [] pos h = tt
column-bytes size (c ∷ cs) pos ((l, b), h) = (entry-byte c pos b, column-bytes size cs pos h)

pub length-combine :
    (cs : List Bytes) (size : ℕ) (row : List ℕ) → length (combine cs size row) ≡ size
unfolding combine
length-combine cs size row = length-map-range (λ pos. sum_products 0 row (column cs pos)) 0 size

pub entry-combine :
    (cs : List Bytes) (size : ℕ) (row : List ℕ) (pos : ℕ)
    → pos < size
    → entry (combine cs size row) pos ≡ sum_products 0 row (column cs pos)
unfolding combine
entry-combine cs size row pos h =
    entry-map-range (λ pos. sum_products 0 row (column cs pos)) 0 size pos h
    ∙ ap (λ p. sum_products 0 row (column cs p)) (omega arith)

head-eq : {x y : ℕ} {xs ys : List ℕ} → x ∷ xs ≡ y ∷ ys → x ≡ y
head-eq e = cc

tail-eq : {x y : ℕ} {xs ys : List ℕ} → x ∷ xs ≡ y ∷ ys → xs ≡ ys
tail-eq e = cc

-- Rows that give the slices' column at every position give the slices.
pub combine-rows :
    (picked : List Bytes) (size : ℕ) (rows : List (List ℕ)) (cs : List Bytes)
    → length rows ≡ length cs
    → AllSized size cs
    → ((pos : ℕ) → pos < size → solve rows (column picked pos) ≡ column cs pos)
    → map (combine picked size) rows ≡ cs
unfolding combine column solve
combine-rows picked size [] [] n h same = refl
combine-rows picked size [] (c ∷ cs) n h same = absurd (omega arith)
combine-rows picked size (r ∷ rows) [] n h same = absurd (omega arith)
combine-rows picked size (r ∷ rows) (c ∷ cs) n ((l, b), h) same =
    let first : combine picked size r ≡ c =
      map-range-entries (λ pos. sum_products 0 r (column picked pos)) 0 size c l
        (λ j lt.
          let e : 0 + j ≡ j = omega arith in
          ap (λ p. sum_products 0 r (column picked p)) e ∙ head-eq (same j lt)) in
    let rest =
      combine-rows picked size rows cs (omega (arith, n)) h (λ pos lt. tail-eq (same pos lt)) in
    λ i. first i ∷ rest i
