-- ===== src/Merkle.antt =====
-- merkle_log (src/ltp/merkle_log/*.py): the RFC 6962 Merkle tree, its proofs, and the signed log.
-- The functions of tree.py are in Functions; Split and Shape hold the abstract tree that the
-- theorems compare them with.
pub mod Functions
pub mod Split
pub mod Shape
pub mod Root
pub mod Inclusion
pub mod Proof
pub mod Portable
pub mod Collision
pub mod Soundness
pub mod MerkleTree
pub mod Membership
pub mod Guarantees
pub mod Prefix
pub mod Consistency
pub mod Rebuild
pub mod ConsistencySound
pub mod AppendOnly
pub mod Sth
pub mod Log
mod Tests
