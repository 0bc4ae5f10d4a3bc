-- ===== src/Merkle/Log.antt =====
-- log.py (src/ltp/merkle_log/log.py): the class `MerkleLog`. The lock makes `append` and
-- `publish_sth` single steps. A call that raises leaves the state alone; the one exception is the
-- tree's root cache, which `publish_sth` fills before a struct.error.
pub mod Invariant
pub mod Included
pub mod Heads
use suwappu_lattice_protocol.Prelude.{
  ℕ, ◌+◌, Bool, true, false, not, Option, none, some, List, [], ◌∷◌, ◌++◌, length, get_elem?, ltb,
  leb, ◌==◌, if◌then◌else◌, Bytes, bytes_eq, Result, ok, raise, index_error, ◌>>=◌,
}
use mathlib.Core.List.{get_last?}
use suwappu_lattice_protocol.Merkle.Functions.{verify_consistency}
use suwappu_lattice_protocol.Merkle.MerkleTree
use suwappu_lattice_protocol.Merkle.MerkleTree.{MerkleTree}
use suwappu_lattice_protocol.Merkle.Sth
use suwappu_lattice_protocol.Merkle.Sth.{SignedTreeHead, SigningKey, Mldsa}
use suwappu_lattice_protocol.Merkle.Proof.{InclusionProof}

pub record MerkleLog : Type 0 where
  pub tree : MerkleTree
  pub records : List Bytes
  pub operator_vk : Bytes
  pub operator_sk : SigningKey
  pub sths : List SignedTreeHead
  pub sequence : ℕ

abbrev pub init : Bytes → SigningKey → MerkleLog
init operator_vk operator_sk = record {
  tree = MerkleTree.empty;
  records = [];
  operator_vk = operator_vk;
  operator_sk = operator_sk;
  sths = [];
  sequence = 0;
}

abbrev pub size : MerkleLog → ℕ
size log = MerkleTree.size log.tree

unfoldable pub latest_sth : MerkleLog → Option SignedTreeHead
latest_sth log = get_last? log.sths

unfoldable pub get_record : MerkleLog → ℕ → Result Bytes
get_record log index = elim (get_elem? log.records index) [
  | none ↦ raise index_error
  | some r ↦ ok r
]

module _ (H : Bytes → Bytes) where
  unfoldable pub append : MerkleLog → Bytes → Result (MerkleLog × ℕ)
  append log content = do
    (tree, idx) ← MerkleTree.append H log.tree content
    ok (record log { tree = tree; records = log.records ++ (content ∷ []) }, idx)

  unfoldable pub inclusion_proof : MerkleLog → ℕ → Result (MerkleLog × InclusionProof)
  inclusion_proof log index = do
    path ← MerkleTree.audit_path H log.tree index
    (tree, root) ← MerkleTree.root H log.tree
    ok (
      record log { tree = tree },
      record { leaf_index = index; tree_size = size log; audit_path = path; root_hash = root },
    )

  unfoldable pub consistency_proof : MerkleLog → ℕ → Result (List Bytes)
  consistency_proof log old_size = MerkleTree.consistency_proof H log.tree old_size

  module _ (dsa : Mldsa) where
    -- `now` is the clock's reading in `SignedTreeHead.sign`.
    unfoldable pub publish_sth : MerkleLog → Bytes → Result (MerkleLog × SignedTreeHead)
    publish_sth log now = do
      (tree, root) ← MerkleTree.root H log.tree
      sth ← Sth.sign dsa log.sequence (size log) root log.operator_vk log.operator_sk now
      ok (
        record log { tree = tree; sths = log.sths ++ (sth ∷ []); sequence = log.sequence + 1 },
        sth,
      )

    -- `if not sth.verify(): return False`, with what follows
    unfoldable pub if_verified : SignedTreeHead → Result Bool → Result Bool
    if_verified sth rest = Sth.verify dsa sth >>= λ valid. if valid then rest else ok false

    unfoldable pub detect_equivocation : SignedTreeHead → SignedTreeHead → Result Bool
    unfolding if_verified
    detect_equivocation sth1 sth2 =
        if not (sth1.sequence == sth2.sequence)
        then ok false
        else if_verified sth1 (if_verified sth2 (ok (not (bytes_eq sth1.root_hash sth2.root_hash))))

    -- `verify_append_only`, after both signatures are found valid
    unfoldable pub append_only_check : MerkleLog → SignedTreeHead → SignedTreeHead → Result Bool
    append_only_check log older newer =
        if leb newer.sequence older.sequence
        then ok false
        else if ltb newer.tree_size older.tree_size
        then ok false
        else if older.tree_size == 0
        then ok (bytes_eq older.root_hash (H []))
        else do
          proof ← MerkleTree.consistency_proof H log.tree older.tree_size
          ok (
              verify_consistency H older.tree_size newer.tree_size older.root_hash newer.root_hash
                proof)

    unfoldable pub verify_append_only : MerkleLog → SignedTreeHead → SignedTreeHead → Result Bool
    unfolding append_only_check if_verified
    verify_append_only log older newer =
        if_verified older (if_verified newer (append_only_check log older newer))
