-- ===== src/Tests/Coding.antt =====
-- Erasure codes of a few bytes on which their theorems are run.
use suwappu_lattice_protocol.Prelude.{
  ℕ, ◌+◌, ◌*◌, ◌<◌, ◌≤◌, ◌≡◌, refl, List, [], ◌∷◌, some, length, get_elem?, Bytes, ok, raise,
  value_error, arith,
}
use suwappu_lattice_protocol.Merkle.Sth.{pack_u64}
use suwappu_lattice_protocol.Erasure.{
  range, pad, chunks, shard, encode, Shards, sorted_keys, place, decode, invert_vandermonde,
}
use suwappu_lattice_protocol.Erasure.Rows.{AllBytes}
use suwappu_lattice_protocol.Erasure.Inversion.{evaluate, solve, invert_vandermonde-solve}
use suwappu_lattice_protocol.Erasure.Encoding.{encode-sizes}
use suwappu_lattice_protocol.Erasure.Recovery.{decode-encode}

abbrev message : Bytes
message = 7 ∷ 200 ∷ []

-- Two slices of the message behind its length.
abbrev slices : List Bytes
slices = (0 ∷ 0 ∷ 0 ∷ 0 ∷ 0 ∷ []) ∷ (0 ∷ 0 ∷ 2 ∷ 7 ∷ 200 ∷ []) ∷ []

abbrev coded : List Bytes
coded = shard slices 5 2 0 ∷ shard slices 5 2 1 ∷ shard slices 5 2 2 ∷ []

encode_runs : encode message 3 2 ≡ ok coded
unfolding encode range pad chunks pack_u64
encode_runs = refl

abbrev last_and_first : Shards
last_and_first = (2, shard slices 5 2 2) ∷ (0, shard slices 5 2 0) ∷ []

both_needed : 2 ≤ length (sorted_keys last_and_first)
unfolding sorted_keys place
both_needed = omega arith

decode-encode_example : decode last_and_first 3 2 ≡ ok message
decode-encode_example =
    decode-encode message 3 2 coded last_and_first (omega arith, (omega arith, tt)) encode_runs
      (refl, (refl, tt)) both_needed

encode_rejects : encode message 2 2 ≡ raise value_error
unfolding encode
encode_rejects = refl

decode_rejects : decode ((1, 0 ∷ []) ∷ []) 3 2 ≡ raise value_error
unfolding decode
decode_rejects = refl

encode-sizes_example :
    (out : List Bytes) × (size : ℕ) × (encode message 3 2 ≡ ok out)
    × (length out ≡ 3)
    × ((i : ℕ) (s : Bytes) → get_elem? out i ≡ some s → length s ≡ size)
    × (2 + 8 ≤ 2 * size)
    × (2 * size < 2 + 8 + 2)
encode-sizes_example =
    encode-sizes message 3 2 (omega arith) (omega arith) (omega arith) (omega arith)

invert_vandermonde-solve_example :
    (inverse : List (List ℕ)) × (invert_vandermonde (1 ∷ 3 ∷ []) 2 ≡ ok inverse)
    × (length inverse ≡ 2)
    × ((c : List ℕ) → length c ≡ 2 → AllBytes c → solve inverse (evaluate 2 c (1 ∷ 3 ∷ [])) ≡ c)
invert_vandermonde-solve_example =
    invert_vandermonde-solve 2 (1 ∷ 3 ∷ []) refl ((omega arith, tt), (tt, tt))
      (omega arith, (omega arith, tt))
