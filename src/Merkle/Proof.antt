-- ===== src/Merkle/Proof.antt =====
-- proof.py (src/ltp/merkle_log/proof.py): the `InclusionProof` dataclass and `verify`.
-- `hmac.compare_digest` is equality of byte strings.
use suwappu_lattice_protocol.Prelude.{
  ℕ, Bool, false, List, length, if◌then◌else◌, not, Bytes, bytes_eq,
}
use suwappu_lattice_protocol.Merkle.Functions.{leaf_hash, verify_inclusion}

pub record InclusionProof : Type 0 where
  pub leaf_index : ℕ
  pub tree_size : ℕ
  pub audit_path : List Bytes
  pub root_hash : Bytes

module _ (H : Bytes → Bytes) where
  unfoldable pub verify : InclusionProof → Bytes → Bytes → Bool
  verify p content claimed_root =
      if not (bytes_eq p.root_hash claimed_root)
      then false
      else bytes_eq (verify_inclusion H p.leaf_index p.tree_size (leaf_hash H content) p.audit_path)
          claimed_root

unfoldable pub path_length : InclusionProof → ℕ
path_length p = length p.audit_path
