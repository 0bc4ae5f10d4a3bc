-- ===== src/Merkle/Portable.antt =====
-- portable_proof.py (src/ltp/merkle_log/portable_proof.py): `PortableMerkleProof`, its check, its
-- canonical bytes and the conversion from an inclusion proof, which `InclusionProof.to_portable`
-- calls. The loop of `_compute_directions` runs on fuel, the size of the tree: each round lowers it.
use suwappu_lattice_protocol.Prelude.{
  ℕ, zero, suc, ◌-◌, ◌≡◌, refl, sym, ap, ◌∙◌, Bool, true, false, ◌&&◌, List, [], ◌∷◌, ◌++◌, reverse,
  length, ltb, ◌==◌, ==-cases, if◌then◌else◌, not, Bytes, bytes_eq, bytes_eq_refl, Result, ok,
  Bool-cases, inl, inr,
}
use mathlib.Core.List.{append_assoc, append-nil}
use suwappu_lattice_protocol.Encoding.{uint8, uint64, string, both, counted, finalize}
use suwappu_lattice_protocol.Merkle.Functions.{
  largest_pow2_below, directions, leaf_hash, climb, verify_inclusion,
}
use suwappu_lattice_protocol.Merkle.Proof.{InclusionProof, verify}

pub data TreeType : Type 0 where
  commitment_log shard_tree : TreeType

pub record PortableMerkleProof : Type 0 where
  pub version : ℕ
  pub tree_type : TreeType
  pub leaf_index : ℕ
  pub tree_size : ℕ
  pub leaf_hash : Bytes
  pub root_hash : Bytes
  pub path : List Bytes
  pub path_directions : List Bool

unfoldable pub walk : ℕ → ℕ → ℕ → List Bool → List Bool
walk zero i n walked = walked
walk (suc f) i n walked =
    let k = largest_pow2_below n in
    let rest =
      walk f (if ltb i k then i else i - k) (if ltb i k then k else n - k)
        (walked ++ (ltb i k ∷ [])) in
    if ltb 1 n then rest else walked

unfoldable pub compute_directions : ℕ → ℕ → List Bool
compute_directions index tree_size = reverse (walk tree_size index tree_size [])

unfoldable pub is_empty : List Bytes → Bool
is_empty [] = true
is_empty (x ∷ xs) = false

-- `TreeType.value`
unfoldable pub tree_type_value : TreeType → Bytes
tree_type_value commitment_log =
    99 ∷ 111 ∷ 109 ∷ 109 ∷ 105 ∷ 116 ∷ 109 ∷ 101 ∷ 110 ∷ 116 ∷ 95 ∷ 108 ∷ 111 ∷ 103 ∷ []
tree_type_value shard_tree = 115 ∷ 104 ∷ 97 ∷ 114 ∷ 100 ∷ 95 ∷ 116 ∷ 114 ∷ 101 ∷ 101 ∷ []

-- b"SUWAPPU-LTP:commit-record:v1\x00"
abbrev pub domain_commit_record : Bytes
domain_commit_record =
    83 ∷ 85 ∷ 87 ∷ 65 ∷ 80 ∷ 80 ∷ 85 ∷ 45 ∷ 76 ∷ 84 ∷ 80 ∷ 58 ∷ 99 ∷ 111 ∷ 109 ∷ 109 ∷ 105 ∷ 116
    ∷ 45 ∷ 114 ∷ 101 ∷ 99 ∷ 111 ∷ 114 ∷ 100 ∷ 58 ∷ 118 ∷ 49 ∷ 0 ∷ []

abbrev pub raw_bytes : Bytes → Result Bytes
raw_bytes value = ok value

abbrev pub direction_flag : Bool → Result Bytes
direction_flag d = uint8 (if d then 1 else 0)

unfoldable pub canonical_bytes : PortableMerkleProof → Result Bytes
canonical_bytes p = finalize domain_commit_record (
    both uint8
      (both string (
        both uint64 (
          both uint64
            (both raw_bytes (both raw_bytes (both (counted raw_bytes) (counted direction_flag)))))))
      (
        p.version,
        (
          tree_type_value p.tree_type,
          (p.leaf_index, (p.tree_size, (p.leaf_hash, (p.root_hash, (p.path, p.path_directions))))),
        ),
      ))

module _ (H : Bytes → Bytes) where
  unfoldable pub portable_verify : PortableMerkleProof → Bool
  portable_verify p =
      if not (length p.path == length p.path_directions)
      then false
      else if is_empty p.path && (p.tree_size == 1)
      then bytes_eq p.leaf_hash p.root_hash
      else bytes_eq (verify_inclusion H p.leaf_index p.tree_size p.leaf_hash p.path) p.root_hash

  unfoldable pub from_inclusion_proof : InclusionProof → TreeType → Bytes → PortableMerkleProof
  from_inclusion_proof p tree_type content = record {
    version = 1;
    tree_type = tree_type;
    leaf_index = p.leaf_index;
    tree_size = p.tree_size;
    leaf_hash = leaf_hash H content;
    root_hash = p.root_hash;
    path = p.audit_path;
    path_directions = compute_directions p.leaf_index p.tree_size;
  }

  abbrev to_portable : InclusionProof → TreeType → Bytes → PortableMerkleProof
  to_portable = from_inclusion_proof

walk-directions : (f i n : ℕ) (walked : List Bool) → walk f i n walked ≡ walked ++ directions f i n
unfolding walk directions
walk-directions zero i n walked = sym (append-nil walked)
walk-directions (suc f) i n walked = elim (Bool-cases (ltb 1 n)) [
  | inl more ↦
      let k = largest_pow2_below n in
      let i' = if ltb i k then i else i - k in
      let n' = if ltb i k then k else n - k in
      rw more (
        walk-directions f i' n' (walked ++ (ltb i k ∷ []))
        ∙ append_assoc walked (ltb i k ∷ []) (directions f i' n'))
  | inr less ↦ rw less (sym (append-nil walked))
]

compute_directions-eq : (i n : ℕ) → compute_directions i n ≡ reverse (directions n i n)
unfolding compute_directions
compute_directions-eq i n = ap reverse (walk-directions n i n [])

module _ (H : Bytes → Bytes) where
  -- The short cut for a tree of one leaf is what the climb gives.
  climb_of_one :
      (path : List Bytes) (i n : ℕ) (x root : Bytes)
      → (if is_empty path && (n == 1)
          then bytes_eq x root
          else bytes_eq (verify_inclusion H i n x path) root)
        ≡ bytes_eq (verify_inclusion H i n x path) root
  unfolding is_empty verify_inclusion directions climb
  climb_of_one (y ∷ ys) i n x root = refl
  climb_of_one [] i n x root = elim (==-cases n 1) [
    | inl (e, b) ↦ rw e refl
    | inr (ne, b) ↦ rw b refl
  ]

  -- A portable proof made from an inclusion proof is accepted just when the inclusion proof is
  -- accepted for the same record and its own root, and its path has a sibling for every step from the
  -- leaf to the root.
  pub from_inclusion_proof-portable_verify :
      (p : InclusionProof) (kind : TreeType) (content : Bytes)
      → portable_verify H (from_inclusion_proof H p kind content) ≡ (
          (length p.audit_path
            == length (reverse (directions p.tree_size p.leaf_index p.tree_size)))
          && verify H p content p.root_hash)
  unfolding portable_verify from_inclusion_proof verify
  from_inclusion_proof-portable_verify p kind content =
      let dirs = compute_directions-eq p.leaf_index p.tree_size in
      let whole =
        length p.audit_path == length (reverse (directions p.tree_size p.leaf_index p.tree_size)) in
      elim (Bool-cases whole) [
        | inr short ↦ rw (dirs, short) refl
        | inl full ↦
            rw (dirs, full, bytes_eq_refl p.root_hash)
              (climb_of_one p.audit_path p.leaf_index p.tree_size (leaf_hash H content) p.root_hash)
      ]
