-- ===== src/Erasure.antt =====
-- `ErasureCoder` (src/ltp/erasure.py) over GF(256): encoding by a Vandermonde matrix, its inversion by
-- Gauss-Jordan elimination, and decoding. The opt-in path through the library zfec is left out. A
-- matrix is a list of rows; in an inversion at column `col` the rows above `col` and those from `col`
-- on are two lists.
pub mod Rows
pub mod Units
pub mod Pivots
pub mod Elimination
pub mod Reduction
pub mod Roots
pub mod Ranges
pub mod Augmented
pub mod Inversion
pub mod Layout
pub mod Indices
pub mod Encoding
pub mod Recovery
use Prim.Native.Nat.{bit_xor}
use suwappu_lattice_protocol.Prelude.{
  ℕ, zero, suc, ◌+◌, ◌-◌, ◌*◌, ◌/◌, ◌%◌, Bool, true, false, not, ◌&&◌, Option, none, some, List, [],
  ◌∷◌, ◌++◌, map, length, take, drop, replicate, ltb, leb, ◌==◌, if◌then◌else◌, Bytes, Result, ok,
  raise, value_error, key_error, index_error, struct_error, assertion_error, ◌>>=◌,
}
use suwappu_lattice_protocol.Merkle.Sth.{pack_u64}
use suwappu_lattice_protocol.Merkle.Sth.Payload.{from_bytes}
use suwappu_lattice_protocol.Galois.{entry, gf_mul, gf_inv}

-- `range`, from a first number
unfoldable pub range : ℕ → ℕ → List ℕ
range i zero = []
range i (suc n) = i ∷ range (suc i) n

unfoldable pub pad : Bytes → ℕ → Bytes
pad content k =
    let remainder = length content % k in
    if remainder == 0 then content else content ++ replicate (k - remainder) 0

-- `data_chunks`: a number of slices of one size
unfoldable pub chunks : ℕ → ℕ → Bytes → List Bytes
chunks zero size padded = []
chunks (suc n) size padded = take size padded ∷ chunks n size (drop size padded)

-- The powers of `alpha`, from a first one.
unfoldable pub alpha_powers : ℕ → ℕ → ℕ → List ℕ
alpha_powers p alpha zero = []
alpha_powers p alpha (suc k) = p ∷ alpha_powers (gf_mul p alpha) alpha k

-- `val ^= gf_mul(…)` along two lists
unfoldable pub sum_products : ℕ → List ℕ → List ℕ → ℕ
sum_products val [] ys = val
sum_products val (x ∷ xs) [] = val
sum_products val (x ∷ xs) (y ∷ ys) = sum_products (bit_xor val (gf_mul x y)) xs ys

-- The bytes of all chunks, or shards, at a position.
unfoldable pub column : List Bytes → ℕ → List ℕ
column [] pos = []
column (c ∷ cs) pos = entry c pos ∷ column cs pos

-- At every position the products of a row of a matrix with the column.
unfoldable pub combine : List Bytes → ℕ → List ℕ → Bytes
combine cs size row = map (λ pos. sum_products 0 row (column cs pos)) (range 0 size)

unfoldable pub shard : List Bytes → ℕ → ℕ → ℕ → Bytes
shard data_chunks size k i = combine data_chunks size (alpha_powers 1 (i + 1) k)

unfoldable pub encode : Bytes → ℕ → ℕ → Result (List Bytes)
encode content n k =
    if not (ltb 0 k && ltb k n)
    then raise value_error
    else if ltb 255 n
    then raise value_error
    else (pack_u64 (length content) >>= λ length_prefix.
        let padded = pad (length_prefix ++ content) k in
        let chunk_size = length padded / k in
        ok (map (shard (chunks k chunk_size padded) chunk_size k) (range 0 n)))

-- `1 if j == i else 0`
unfoldable pub unit_row : ℕ → ℕ → List ℕ
unit_row i k = map (λ j. if j == i then 1 else 0) (range 0 k)

unfoldable pub augmented : ℕ → ℕ → List ℕ → List (List ℕ)
augmented k i [] = []
augmented k i (alpha ∷ alphas) =
    (alpha_powers 1 alpha k ++ unit_row i k) ∷ augmented k (suc i) alphas

unfoldable pub keep_above :
    List ℕ → Option (List ℕ × List (List ℕ)) → Option (List ℕ × List (List ℕ))
keep_above s none = none
keep_above s (some (p, rows)) = some (p, s ∷ rows)

-- The pivot below a first row that is none, and the rows with that row in its place.
unfoldable pub swap_pivot : ℕ → List ℕ → List (List ℕ) → Option (List ℕ × List (List ℕ))
swap_pivot col r [] = none
swap_pivot col r (s ∷ rows) =
    let rest = swap_pivot col r rows in
    if entry s col == 0 then keep_above s rest else some (s, r ∷ rows)

unfoldable pub pivot : ℕ → List (List ℕ) → Option (List ℕ × List (List ℕ))
pivot col [] = none
pivot col (r ∷ rows) = if entry r col == 0 then swap_pivot col r rows else some (r, rows)

unfoldable pub scale : ℕ → List ℕ → List ℕ
scale factor row = map (λ x. gf_mul x factor) row

unfoldable pub add_multiple : ℕ → List ℕ → List ℕ → List ℕ
add_multiple factor [] ps = []
add_multiple factor (x ∷ xs) [] = x ∷ xs
add_multiple factor (x ∷ xs) (p ∷ ps) = bit_xor x (gf_mul factor p) ∷ add_multiple factor xs ps

unfoldable pub clear : ℕ → List ℕ → List ℕ → List ℕ
clear col pivot_row row =
    let factor = entry row col in if factor == 0 then row else add_multiple factor row pivot_row

unfoldable pub found_pivot : Option (List ℕ × List (List ℕ)) → Result (List ℕ × List (List ℕ))
found_pivot none = raise assertion_error
found_pivot (some p) = ok p

-- The columns to go, the column, the rows above it and the others.
unfoldable pub eliminate : ℕ → ℕ → List (List ℕ) → List (List ℕ) → Result (List (List ℕ))
eliminate zero col above rows = ok (above ++ rows)
eliminate (suc n) col above rows = found_pivot (pivot col rows) >>= λ (p, others).
    gf_inv (entry p col) >>= λ inv_pivot.
    let pivot_row = scale inv_pivot p in
    eliminate n (suc col) (map (clear col pivot_row) above ++ (pivot_row ∷ []))
      (map (clear col pivot_row) others)

unfoldable pub invert_vandermonde : List ℕ → ℕ → Result (List (List ℕ))
invert_vandermonde alphas k =
    eliminate k 0 [] (augmented k 0 alphas) >>= λ rows. ok (map (drop k) rows)

-- A dict from the index of a shard to its bytes.
abbrev pub Shards : Type 0
Shards = List (ℕ × Bytes)

unfoldable pub find_shard : ℕ → Shards → Result Bytes
find_shard i [] = raise key_error
find_shard i ((j, s) ∷ shards) = let rest = find_shard i shards in if j == i then ok s else rest

unfoldable pub find_shards : List ℕ → Shards → Result (List Bytes)
find_shards [] shards = ok []
find_shards (i ∷ indices) shards =
    find_shard i shards >>= λ s. find_shards indices shards >>= λ ss. ok (s ∷ ss)

-- A key at its place among sorted keys, once.
unfoldable pub place : ℕ → List ℕ → List ℕ
place i [] = i ∷ []
place i (j ∷ js) =
    let rest = place i js in if ltb i j then i ∷ j ∷ js else if i == j then j ∷ js else j ∷ rest

unfoldable pub sorted_keys : Shards → List ℕ
sorted_keys [] = []
sorted_keys ((i, s) ∷ shards) = place i (sorted_keys shards)

unfoldable pub all_below : ℕ → List ℕ → Bool
all_below n [] = true
all_below n (i ∷ is) = ltb i n && all_below n is

-- No byte at a position is out of range.
unfoldable pub all_reach : ℕ → List Bytes → Bool
all_reach size [] = true
all_reach size (s ∷ ss) = leb size (length s) && all_reach size ss

unfoldable pub head_length : List Bytes → Result ℕ
head_length [] = raise index_error
head_length (s ∷ ss) = ok (length s)

unfoldable pub concat : List Bytes → Bytes
concat [] = []
concat (c ∷ cs) = c ++ concat cs

-- The data behind its length.
unfoldable pub unpack : Bytes → Result Bytes
unpack result =
    if ltb (length result) 8
    then raise struct_error
    else ok (take (from_bytes 0 (take 8 result)) (drop 8 result))

-- An index of 255 or more is past the tables, once its powers are taken.
unfoldable pub decode : Shards → ℕ → ℕ → Result Bytes
decode shards n k =
    let indices = take k (sorted_keys shards) in
    if ltb (length shards) k
    then raise value_error
    else (find_shards indices shards >>= λ picked. head_length picked >>= λ chunk_size.
        if not (all_below 255 indices)
        then raise index_error
        else (invert_vandermonde (map (λ i. i + 1) indices) k >>= λ inverse.
            if not (all_reach chunk_size picked)
            then raise index_error
            else unpack (concat (map (combine picked chunk_size) inverse))))
