-- ===== src/Erasure/Encoding.antt =====
-- What `encode` returns.
use suwappu_lattice_protocol.Prelude.{
  ℕ, ◌+◌, ◌*◌, ◌/◌, ◌^◌, ◌<◌, ◌≤◌, ◌≡◌, refl, sym, ap, ◌∙◌, true, false, ◌&&◌, Bool-cases, some,
  List, ◌++◌, map, length, length-append, get_elem?, take, take-append, replicate, ltb, ltb-cases,
  inl, inr, Bytes, ok, ok-inj, bind-eq_ok, arith,
}
use native.Mathlib.Nat.{mul_comm}
use mathlib.Core.List.{append_assoc}
use suwappu_lattice_protocol.Merkle.Sth.{u64_bytes, pack_u64}
use suwappu_lattice_protocol.Merkle.Sth.Payload.{from_bytes-u64_bytes, pack_u64-eq_ok}
use suwappu_lattice_protocol.Erasure.{range, pad, chunks, shard, encode, alpha_powers, unpack}
use suwappu_lattice_protocol.Erasure.Rows.{AllBytes}
use suwappu_lattice_protocol.Erasure.Reduction.{length-replicate}
use suwappu_lattice_protocol.Erasure.Layout.{pad-zeros, length-combine}
use suwappu_lattice_protocol.Erasure.Ranges.{length-map-range, get_elem?-map-range}

pub u64_bytes-bytes : (n : ℕ) → AllBytes (u64_bytes n)
u64_bytes-bytes n = (
  omega arith,
  (
    omega arith,
    (omega arith, (omega arith, (omega arith, (omega arith, (omega arith, (omega arith, tt)))))),
  ),
)

unfoldable pub padded_of : Bytes → ℕ → Bytes
padded_of content k = pad (u64_bytes (length content) ++ content) k

-- What `encode` does where it returns.
pub encode-eq_ok :
    (content : Bytes) (n k : ℕ) (out : List Bytes)
    → encode content n k ≡ ok out
    → (0 < k)
      × (k < n)
      × (n ≤ 255)
      × (length content < 2 ^ 64)
      × (out
          ≡ map
              (shard
                (chunks k (length (padded_of content k) / k) (padded_of content k))
                (length (padded_of content k) / k)
                k)
              (range 0 n))
unfolding encode padded_of
encode-eq_ok content n k out e = elim (Bool-cases (ltb 0 k && ltb k n)) [
  | inr wrong ↦ absurd (let f = rw wrong at e in cc)
  | inl good ↦ elim (ltb-cases 255 n) [
    | inl (lt, many) ↦ absurd (let f = rw (good, many) at e in cc)
    | inr (le, few) ↦
        let f = rw (good, few) at e in
        let (b, pb, done) = bind-eq_ok (pack_u64 (length content)) _ f in
        let (short, same) = pack_u64-eq_ok (length content) b pb in
        (ground arith, ground arith, le, short, sym (ok-inj (rw same at done)))
  ]
]

pub unpack-padded :
    (content : Bytes) (k : ℕ)
    → 0 < k
    → length content < 2 ^ 64
    → unpack (padded_of content k) ≡ ok content
unfolding unpack padded_of
unpack-padded content k pos short =
    let (m, filled, _, _) = pad-zeros (u64_bytes (length content) ++ content) k pos in
    let whole : pad (u64_bytes (length content) ++ content) k
        ≡ u64_bytes (length content) ++ (content ++ replicate m 0) =
      filled ∙ append_assoc (u64_bytes (length content)) content (replicate m 0) in
    let long : ltb (length (u64_bytes (length content) ++ (content ++ replicate m 0))) 8 ≡ false =
      ground (arith, length-append (u64_bytes (length content)) (content ++ replicate m 0)) in
    rw (whole, long)
      (ap (λ l. ok (take l (content ++ replicate m 0)))
          (from_bytes-u64_bytes (length content) short)
        ∙ ap ok (take-append content (replicate m 0)))

pub length-shard : (cs : List Bytes) (size k i : ℕ) → length (shard cs size k i) ≡ size
unfolding shard
length-shard cs size k i = length-combine cs size (alpha_powers 1 (i + 1) k)

-- `encode` returns for `0 < k < n ≤ 255` and data of less than 2 ^ 64 bytes: `n` shards of one size,
-- and `k` of them hold the data with its eight bytes of length and less than `k` bytes more.
pub encode-sizes :
    (content : Bytes) (n k : ℕ)
    → 0 < k
    → k < n
    → n ≤ 255
    → length content < 2 ^ 64
    → (out : List Bytes) × (size : ℕ) × (encode content n k ≡ ok out)
      × (length out ≡ n)
      × ((i : ℕ) (s : Bytes) → get_elem? out i ≡ some s → length s ≡ size)
      × (length content + 8 ≤ k * size)
      × (k * size < length content + 8 + k)
unfolding encode pack_u64 padded_of
encode-sizes content n k pos less few short =
    let prefixed = u64_bytes (length content) ++ content in
    let padded = pad prefixed k in
    let size = length padded / k in
    let cs = chunks k size padded in
    let good : (ltb 0 k && ltb k n) ≡ true = ground arith in
    let small : ltb 255 n ≡ false = ground arith in
    let fits : ltb (length content) (2 ^ 64) ≡ true = ground arith in
    let (m, filled, whole, bound) = pad-zeros prefixed k pos in
    let sliced : length padded ≡ k * size = whole ∙ mul_comm size k in
    let size_eq : length padded ≡ 8 + length content + m =
      ap length filled
      ∙ omega (
        arith,
        length-append prefixed (replicate m 0),
        length-replicate m,
        length-append (u64_bytes (length content)) content,
      ) in
    (
      map (shard cs size k) (range 0 n),
      size,
      rw (good, small, fits) refl,
      length-map-range (shard cs size k) 0 n,
      λ i s e.
          ap length (get_elem?-map-range (shard cs size k) 0 n i s e).1
          ∙ length-shard cs size k (0 + i),
      omega (arith, size_eq, bound, sliced),
      omega (arith, size_eq, bound, sliced),
    )
