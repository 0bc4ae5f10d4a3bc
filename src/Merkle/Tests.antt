-- ===== src/Merkle/Tests.antt =====
-- Small logs on which the theorems about the Merkle log are run, with a padding in place of the
-- hash function and a signature scheme that accepts every signature.
mod Logs
use suwappu_lattice_protocol.Prelude.{
  ℕ, ◌+◌, ◌≤◌, ◌≡◌, refl, true, false, Option, none, some, ◌⊎◌, List, [], ◌∷◌, ◌++◌, length, take,
  replicate, length-take_of_le, length-append, get_elem?, Bytes, bytes_discrete, Result, ok, arith,
  reverse, ◌==◌, ◌&&◌,
}
use suwappu_lattice_protocol.Merkle.Functions.{
  largest_pow2_below, directions, leaf_hash, internal_hash, compute_root, compute_root_fuel, climb,
  verify_inclusion, verify_consistency, known_subtree, roots_match, right_node, left_node,
  add_right_sibling, add_left_sibling, rebuild,
}
use suwappu_lattice_protocol.Merkle.Collision.{Collision, IsDigest}
use suwappu_lattice_protocol.Merkle.Membership.{Contains}
use suwappu_lattice_protocol.Merkle.Guarantees.{
  hashed, verify_sound, verify-member, verify-short_path,
}
use suwappu_lattice_protocol.Merkle.AppendOnly.{verify_consistency_sound}
use suwappu_lattice_protocol.Merkle.Portable.{
  commitment_log, portable_verify, from_inclusion_proof, from_inclusion_proof-portable_verify,
}
use suwappu_lattice_protocol.Merkle.Proof.{InclusionProof, verify}
use suwappu_lattice_protocol.Merkle.MerkleTree
use suwappu_lattice_protocol.Merkle.MerkleTree.{MerkleTree}
use suwappu_lattice_protocol.Merkle.MerkleTree.Cache.{IsCoherent, root-refreshed}
use suwappu_lattice_protocol.Merkle.MerkleTree.Extends.{consistency_proof-verify}
use suwappu_lattice_protocol.Merkle.Sth
use suwappu_lattice_protocol.Merkle.Sth.{SignedTreeHead, Mldsa}
use suwappu_lattice_protocol.Merkle.Sth.Payload.{payload-inj}
use suwappu_lattice_protocol.Merkle.Log.{
  MerkleLog, init, append, publish_sth, inclusion_proof, detect_equivocation, verify_append_only,
}
use suwappu_lattice_protocol.Merkle.Log.Invariant.{
  IsRootOf, IsLog, init-IsLog, append-IsLog, publish_sth-IsLog,
}
use suwappu_lattice_protocol.Merkle.Log.Included.{inclusion_proof-verify}
use suwappu_lattice_protocol.Merkle.Log.Heads.{detect_equivocation-own}

abbrev pub pad : Bytes → Bytes
pad x = take 32 (x ++ replicate 32 0)

abbrev pub accepting : Mldsa
accepting = record { sign = λ sk m. m; verify = λ vk m s. true }

pad-IsDigest : IsDigest pad
pad-IsDigest = record {
  width = λ x.
      length-take_of_le {0} 32 (x ++ replicate 32 0)
        (omega (arith, length-append {0} x (replicate 32 0)));
}

abbrev pub one : Bytes
one = 1 ∷ []

abbrev pub two : Bytes
two = 2 ∷ []

abbrev pub three : Bytes
three = 3 ∷ []

abbrev records : List Bytes
records = one ∷ two ∷ []

abbrev pub pair_root : Bytes
pair_root = internal_hash pad (leaf_hash pad one) (leaf_hash pad two)

abbrev pub triple_root : Bytes
triple_root = internal_hash pad pair_root (leaf_hash pad three)

abbrev proof_two : InclusionProof
proof_two = record {
  leaf_index = 1;
  tree_size = 2;
  audit_path = leaf_hash pad one ∷ [];
  root_hash = pair_root;
}

pair_root-eq : compute_root pad (hashed pad records) ≡ ok pair_root
unfolding compute_root_fuel largest_pow2_below leaf_hash internal_hash
pair_root-eq = refl

triple_root-eq : compute_root pad (hashed pad (one ∷ two ∷ three ∷ [])) ≡ ok triple_root
unfolding compute_root_fuel largest_pow2_below leaf_hash internal_hash
triple_root-eq = refl

proof_two-accepted : verify pad proof_two two pair_root ≡ true
unfolding bytes_discrete verify verify_inclusion directions climb largest_pow2_below leaf_hash
    internal_hash
proof_two-accepted = refl

directions-two : length proof_two.audit_path ≡ length (directions 2 1 2)
unfolding directions largest_pow2_below
directions-two = refl

verify_sound_example : (get_elem? records 1 ≡ some two) ⊎ Collision pad
verify_sound_example =
    verify_sound pad pad-IsDigest records pair_root proof_two two pair_root-eq refl (omega arith)
      directions-two proof_two-accepted

from_inclusion_proof-portable_verify_example :
    portable_verify pad (from_inclusion_proof pad proof_two commitment_log two) ≡ (
      (length proof_two.audit_path == length (reverse (directions 2 1 2)))
      && verify pad proof_two two pair_root)
from_inclusion_proof-portable_verify_example =
    from_inclusion_proof-portable_verify pad proof_two commitment_log two

verify-member_example : Contains two records ⊎ Collision pad
verify-member_example =
    verify-member pad pad-IsDigest records pair_root proof_two two pair_root-eq proof_two-accepted

verify-short_path_example :
    verify pad
      (record {
        leaf_index = 1;
        tree_size = 3;
        audit_path = internal_hash pad (leaf_hash pad one) (leaf_hash pad two) ∷ [];
        root_hash = triple_root;
      })
      three
      triple_root
    ≡ true
verify-short_path_example = verify-short_path pad one two three triple_root triple_root-eq

extension-accepted :
    verify_consistency pad 2 3 pair_root triple_root (leaf_hash pad three ∷ []) ≡ true
unfolding bytes_discrete verify_consistency known_subtree roots_match right_node left_node
    add_right_sibling add_left_sibling rebuild largest_pow2_below leaf_hash internal_hash
extension-accepted = refl

verify_consistency_sound_example : (records ≡ take 2 (one ∷ two ∷ three ∷ [])) ⊎ Collision pad
verify_consistency_sound_example =
    verify_consistency_sound pad pad-IsDigest records (one ∷ two ∷ three ∷ []) pair_root triple_root
      (leaf_hash pad three ∷ []) pair_root-eq triple_root-eq extension-accepted

abbrev pair_tree : MerkleTree
pair_tree = record {
  leaves = leaf_hash pad one ∷ leaf_hash pad two ∷ [];
  cached_root = none;
  cache_leaf_count = 0;
  cache_leaf_checksum = [];
}

pair_tree-IsCoherent : IsCoherent pad pair_tree
pair_tree-IsCoherent = record { counted = omega arith; cached = λ r e. cc }

one_root-eq : compute_root pad (leaf_hash pad one ∷ []) ≡ ok (leaf_hash pad one)
unfolding compute_root_fuel
one_root-eq = refl

consistency_proof-verify_example :
    (p : List Bytes) × (MerkleTree.consistency_proof pad pair_tree 1 ≡ ok p)
    × (verify_consistency pad 1 2 (leaf_hash pad one) pair_root p ≡ true)
consistency_proof-verify_example =
    consistency_proof-verify pad pair_tree 1 (leaf_hash pad one) pair_root (omega arith)
      (omega arith) one_root-eq pair_root-eq

root-refreshed_example :
    (u : MerkleTree) × (r : Bytes) × (MerkleTree.root pad pair_tree ≡ ok (u, r))
    × (compute_root pad pair_tree.leaves ≡ ok r)
    × (u.leaves ≡ pair_tree.leaves)
    × IsCoherent pad u
root-refreshed_example = root-refreshed pad pair_tree pair_tree-IsCoherent (omega arith)
