-- ===== src/Merkle/MerkleTree.antt =====
-- The class `MerkleTree` of tree.py (src/ltp/merkle_log/tree.py): leaves, cached root and methods.
-- A method returns the new state beside its result; a call that raises leaves the state alone.
pub mod Cache
pub mod Extends
use mathlib.Core.List.{flatten}
use suwappu_lattice_protocol.Prelude.{
  ℕ, zero, suc, ◌+◌, ◌-◌, Bool, true, false, Option, none, some, List, [], ◌∷◌, ◌++◌, length,
  get_elem?, ltb, leb, ◌==◌, if◌then◌else◌, ◌&&◌, ◌||◌, not, Bytes, bytes_eq, Result, ok, raise,
  value_error, index_error, ◌>>=◌,
}
use suwappu_lattice_protocol.Merkle.Functions.{
  leaf_hash, compute_root, audit_path_fuel, subproof_fuel,
}

pub record MerkleTree : Type 0 where
  pub leaves : List Bytes
  pub cached_root : Option Bytes
  pub cache_leaf_count : ℕ
  pub cache_leaf_checksum : Bytes

abbrev pub empty : MerkleTree
empty = record { leaves = []; cached_root = none; cache_leaf_count = 0; cache_leaf_checksum = [] }

abbrev pub capacity : ℕ
capacity = 1_000_000

abbrev pub size : MerkleTree → ℕ
size t = length t.leaves

abbrev or_index_error : Option Bytes → Result Bytes
or_index_error none = raise index_error
or_index_error (some x) = ok x

module _ (H : Bytes → Bytes) where
  unfoldable pub append : MerkleTree → Bytes → Result (MerkleTree × ℕ)
  append t content =
      if leb capacity (length t.leaves)
      then raise value_error
      else ok (
        record t { leaves = t.leaves ++ (leaf_hash H content ∷ []) },
        length (t.leaves ++ (leaf_hash H content ∷ [])) - 1,
      )

  -- `_leaf_checksum`
  unfoldable pub leaf_checksum : MerkleTree → Bytes
  leaf_checksum t = if length t.leaves == 0 then [] else H (flatten t.leaves)

  -- The fast path of `root`: a cached root whose leaf count and checksum still fit.
  unfoldable pub cache_hit : MerkleTree → Option Bytes
  unfolding leaf_checksum
  cache_hit t =
      if (length t.leaves == t.cache_leaf_count) && bytes_eq (leaf_checksum t) t.cache_leaf_checksum
      then t.cached_root
      else none

  unfoldable pub refresh : MerkleTree → Option Bytes → Result (MerkleTree × Bytes)
  unfolding leaf_checksum
  refresh t (some root) = ok (t, root)
  refresh t none = do
    root ← compute_root H t.leaves
    ok (
      record t {
        cached_root = some root;
        cache_leaf_count = length t.leaves;
        cache_leaf_checksum = leaf_checksum t;
      },
      root,
    )

  unfoldable pub root : MerkleTree → Result (MerkleTree × Bytes)
  root t = if length t.leaves == 0 then ok (t, H []) else refresh t (cache_hit t)

  unfoldable pub leaf_hash_at : MerkleTree → ℕ → Result Bytes
  leaf_hash_at t index = or_index_error (get_elem? t.leaves index)

  unfoldable pub audit_path : MerkleTree → ℕ → Result (List Bytes)
  audit_path t index =
      if ltb index (size t)
      then audit_path_fuel H (length t.leaves) index t.leaves
      else raise index_error

  unfoldable pub consistency_proof : MerkleTree → ℕ → Result (List Bytes)
  consistency_proof t old_size =
      if ltb old_size 1 || ltb (size t) old_size
      then raise value_error
      else if old_size == size t
      then ok []
      else subproof_fuel H (length t.leaves) old_size t.leaves true
