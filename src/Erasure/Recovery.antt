-- ===== src/Erasure/Recovery.antt =====
-- Any `k` different shards give the data back.
use suwappu_lattice_protocol.Prelude.{
  ℕ, suc, ◌+◌, ◌*◌, ◌/◌, ◌<◌, ◌≤◌, ◌≡◌, refl, sym, ap, ◌∙◌, subst, false, List, [], ◌∷◌, ◌++◌, map,
  length, take, replicate, length-take_of_le, ltb, Bytes, ok, arith,
}
use native.Mathlib.Nat.{mul_comm}
use suwappu_lattice_protocol.Merkle.Sth.{u64_bytes}
use suwappu_lattice_protocol.Erasure.{
  range, pad, chunks, column, combine, shard, encode, alpha_powers, Shards, find_shard, sorted_keys,
  head_length, concat, unpack, decode,
}
use suwappu_lattice_protocol.Erasure.Rows.{AllBytes, append-bytes}
use suwappu_lattice_protocol.Erasure.Reduction.{replicate-bytes}
use suwappu_lattice_protocol.Erasure.Roots.{Each, Each-map, IsRising}
use suwappu_lattice_protocol.Erasure.Inversion.{evaluate, solve, invert_vandermonde-solve}
use suwappu_lattice_protocol.Erasure.Layout.{
  pad-zeros, AllSized, length-chunks, chunks-AllSized, concat-chunks, length-column, column-bytes,
  entry-combine, combine-rows,
}
use suwappu_lattice_protocol.Erasure.Indices.{
  IsFrom, Finds, sorted_keys-IsRising, length-sorted_keys, take-Each, take-IsRising,
  sorted_keys-Finds, find_shards-ok, all_below-true, all_reach-true,
}
use suwappu_lattice_protocol.Erasure.Ranges.{get_elem?-map-range}
use suwappu_lattice_protocol.Erasure.Encoding.{
  u64_bytes-bytes, padded_of, encode-eq_ok, unpack-padded, length-shard,
}

length-map_suc : (is : List ℕ) → length (map (λ i. i + 1) is) ≡ length is
length-map_suc [] = refl
length-map_suc (i ∷ is) = ap suc (length-map_suc is)

Each-suc :
    (P Q : ℕ → Type 0) (is : List ℕ)
    → ((i : ℕ) → P i → Q (i + 1))
    → Each P is
    → Each Q (map (λ i. i + 1) is)
Each-suc P Q [] f h = tt
Each-suc P Q (i ∷ is) f (p, h) = (f i p, Each-suc P Q is f h)

IsRising-suc : (is : List ℕ) → IsRising is → IsRising (map (λ i. i + 1) is)
IsRising-suc [] h = tt
IsRising-suc (i ∷ is) (over, up) =
    (Each-suc (λ y. i < y) (λ y. i + 1 < y) is (λ j lt. omega (arith, lt)) over, IsRising-suc is up)

below_suc : (is : List ℕ) → Each (λ i. i < 255) is → Each (λ i. i < 256) (map (λ i. i + 1) is)
below_suc is h = Each-suc (λ i. i < 255) (λ i. i < 256) is (λ i lt. omega (arith, lt)) h

module _ (k size : ℕ) (cs : List Bytes) (sized : AllSized size cs) (count : length cs ≡ k) where
  -- A position of picked shards holds the values of the slices' column.
  column-shards :
      (pos : ℕ) (is : List ℕ)
      → pos < size
      → column (map (shard cs size k) is) pos ≡ evaluate k (column cs pos) (map (λ i. i + 1) is)
  unfolding column evaluate shard
  column-shards pos [] lt = refl
  column-shards pos (i ∷ is) lt =
      let here = entry-combine cs size (alpha_powers 1 (i + 1) k) pos lt in
      let rest = column-shards pos is lt in λ j. here j ∷ rest j

  combine-shards :
      (is : List ℕ) (inverse : List (List ℕ))
      → length inverse ≡ k
      → ((c : List ℕ)
          → length c ≡ k
          → AllBytes c
          → solve inverse (evaluate k c (map (λ i. i + 1) is)) ≡ c)
      → map (combine (map (shard cs size k) is) size) inverse ≡ cs
  combine-shards is inverse n solves =
      combine-rows (map (shard cs size k) is) size inverse cs (n ∙ sym count) sized (λ pos lt.
        ap (solve inverse) (column-shards pos is lt)
        ∙ solves (column cs pos) (length-column cs pos ∙ count) (column-bytes size cs pos sized))

  head_of : (is : List ℕ) → 0 < length is → head_length (map (shard cs size k) is) ≡ ok size
  unfolding head_length
  head_of [] h = absurd (omega (arith, h))
  head_of (i ∷ is) h = ap ok (length-shard cs size k i)

  decode-shards :
      (n : ℕ) (shards : Shards)
      → 0 < k
      → n ≤ 255
      → k ≤ length (sorted_keys shards)
      → IsFrom (map (shard cs size k) (range 0 n)) shards
      → decode shards n k ≡ unpack (concat cs)
  unfolding decode
  decode-shards n shards pos few enough from =
      let is = take k (sorted_keys shards) in
      let found : Each (λ i. (i < n) × (find_shard i shards ≡ ok (shard cs size k i))) is =
        take-Each (λ i. (i < n) × (find_shard i shards ≡ ok (shard cs size k i))) k
          (sorted_keys shards)
          (Each-map (Finds (map (shard cs size k) (range 0 n)) shards)
            (λ i. (i < n) × (find_shard i shards ≡ ok (shard cs size k i))) (sorted_keys shards)
            (λ i (s, f, there).
              let (lt, same) = get_elem?-map-range (shard cs size k) 0 n i s there in
              let z : 0 + i ≡ i = omega arith in (lt, f ∙ ap ok (same ∙ ap (shard cs size k) z)))
            (sorted_keys-Finds (map (shard cs size k) (range 0 n)) shards from)) in
      let many : ltb (length shards) k ≡ false =
        let l = length-sorted_keys shards in ground (arith, l) in
      let picks = find_shards-ok (shard cs size k) shards is (
        Each-map (λ i. (i < n) × (find_shard i shards ≡ ok (shard cs size k i)))
          (λ i. find_shard i shards ≡ ok (shard cs size k i)) is (λ i p. p.1) found) in
      let below =
        Each-map (λ i. (i < n) × (find_shard i shards ≡ ok (shard cs size k i))) (λ i. i < 255) is
          (λ i p. let l = p.0 in omega (arith, l, few)) found in
      let tables = all_below-true 255 is below in
      let long : length is ≡ k = length-take_of_le k (sorted_keys shards) enough in
      let first : head_length (map (shard cs size k) is) ≡ ok size =
        head_of is (omega (arith, long, pos)) in
      let (inverse, inverts, ln, solves) =
        invert_vandermonde-solve k (map (λ i. i + 1) is) (length-map_suc is ∙ long)
          (IsRising-suc is (take-IsRising k (sorted_keys shards) (sorted_keys-IsRising shards)))
          (below_suc is below) in
      rw
        (
          many,
          picks,
          first,
          tables,
          inverts,
          all_reach-true size (shard cs size k) is (length-shard cs size k),
        )
        (ap (λ l. unpack (concat l)) (combine-shards is inverse ln solves))

-- Where `encode` returned shards of some bytes, decoding a dict of shards at their own indices, of at
-- least `k` different ones, returns these bytes.
pub decode-encode :
    (content : Bytes) (n k : ℕ) (out : List Bytes) (shards : Shards)
    → AllBytes content
    → encode content n k ≡ ok out
    → IsFrom out shards
    → k ≤ length (sorted_keys shards)
    → decode shards n k ≡ ok content
unfolding padded_of
decode-encode content n k out shards bytes encoded from enough =
    let (pos, less, few, short, made) = encode-eq_ok content n k out encoded in
    let prefixed = u64_bytes (length content) ++ content in
    let (m, filled, whole, bound) = pad-zeros prefixed k pos in
    let padded = pad prefixed k in
    let size = length padded / k in
    let sliced : length padded ≡ k * size = whole ∙ mul_comm size k in
    let all : AllBytes padded = subst AllBytes (sym filled) (
      append-bytes prefixed (replicate m 0)
        (append-bytes (u64_bytes (length content)) content (u64_bytes-bytes (length content)) bytes)
        (replicate-bytes m)) in
    decode-shards k size (chunks k size padded) (chunks-AllSized k size padded sliced all)
      (length-chunks k size padded) n shards pos few enough (subst (λ o. IsFrom o shards) made from)
    ∙ ap unpack (concat-chunks k size padded sliced)
    ∙ unpack-padded content k pos short
