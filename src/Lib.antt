-- ===== src/Lib.antt =====
-- The core of the lattice protocol's Python reference (src/ltp): the transparency log that makes
-- records tamper-evident, the stablecoin ledger and the deposits credited to it, the challenge
-- windows of the optimistic bridge, the erasure code of the shards, the validators of an epoch,
-- the lifecycle of writers, the services on the ledger, the votes and the signer policy of
-- governance, the circuit breaker of the network and the anchor tracker.
--
-- The parts and their files:
--   Prelude and its children: shared names, Boolean tests, lists over native numbers, byte
--     strings, results of calls that may raise. Dict: Python's dict as an association list in
--     insertion order.
--   Merkle: src/ltp/merkle_log. Merkle/Functions has the functions of tree.py (hashing, roots,
--     audit paths, the two verifiers, consistency proofs); Merkle/MerkleTree the class with its
--     root cache; Merkle/Proof the inclusion proofs of proof.py, Merkle/Portable the portable ones
--     of portable_proof.py; Merkle/Sth the signed tree heads of sth.py; Merkle/Log the class
--     MerkleLog of log.py, which owns a tree and the heads. Their proofs go through a binary tree
--     (Merkle/Shape) whose hash is the root (Merkle/Root): Merkle/Inclusion, Soundness, Membership
--     and Guarantees for inclusion, Prefix, Consistency, Rebuild, ConsistencySound and AppendOnly
--     for consistency.
--   Ledger: src/ltp/incentives.py, the class StablecoinLedger; Ledger/Solvency its books.
--   Payouts, Pricing, Admission: the three services of src/ltp/incentives.py that work on the
--     ledger, StableNodeIncentive with the slashing tiers of economics.py, StableCommitmentPricing
--     and StableAdmissionControl. Payouts/Claims and Payouts/Accrual are about metered work and slashes,
--     Payouts/Settlement and Payouts/Clearing about an epoch's payout, Pricing/Quotes about
--     prices, Admission/Entry and Admission/Eviction about who is admitted.
--   Deposits: src/ltp/bridge_deposits.py, the class DepositWatcher, which calls the ledger's
--     customer_deposit; Deposits/Crediting and Deposits/Replay what a batch of events does.
--   Challenge: src/ltp/bridge/challenge.py, the class ChallengeManager; Challenge/Lifecycle its
--     transitions, Challenge/Deadlines its times.
--   Writers: src/ltp/execution/writer.py and writer_registry.py; Writers/Audit and Writers/Calls
--     the audit logs, Writers/Revocation what follows a revocation.
--   Votes: src/ltp/governance.py, the class TransitionVoteManager and the signed votes;
--     Votes/Double the float product of the required ratio.
--   Policy: the class SignerPolicy of the same file; Encoding: src/ltp/encoding.py, of which
--     Encoding/Codes and Encoding/Parts show what can be read back; Policy/Binding joins the two.
--   Galois: the field GF(256) of src/ltp/erasure.py; Galois/Xor the laws of exclusive or,
--     Galois/Tables what holds by going through the tables, Galois/Field the field.
--   Erasure: the class ErasureCoder of the same file. Erasure/Rows, Units, Pivots, Elimination,
--     Reduction, Roots and Augmented show that the elimination never lacks a pivot: a matrix with
--     none in a column sends some polynomial to zero, which has fewer roots than points.
--     Erasure/Inversion is about the inverse matrix, Layout and Encoding about encoding, Indices
--     and Recovery about decoding.
--   Shards: src/ltp/shards.py, the class ShardEncryptor, and the class AEAD of primitives.py that
--     it calls; Shards/Keys the keys it tracks, Shards/Sealing what it encrypts.
--   Validators: src/ltp/consensus/validator_set.py; Validators/Evictions who stays active,
--     Validators/Quorums what quorums share.
--   Breaker: src/ltp/network/resilience.py, with the machine that it implements in
--     Breaker/Machine.
--   AnchorStatus: src/ltp/node/anchor_status.py. Sequencing: src/ltp/sequencing.py.
--   Merkle/Tests and Tests: runs of the theorems at small inputs.
--
-- State is a record, a method a function that returns the new state, an exception a value of
-- Error; where a method raises after a change, the function returns the changed state with the
-- error. A lock makes a method one step. The hash function (BLAKE2b-256), ML-DSA, HMAC and the
-- cipher are parameters: theorems on forged proofs assume that digests have 32 bytes, and end in a
-- collision of the hash function. Recursions on lists of leaves run on fuel: the number of leaves,
-- or one more for a root, which is enough since each call's part is shorter; that they return is
-- part of the theorems on roots and proofs. The required ratio of votes is a double, whose product
-- is rounded to 53 bits within 53 doublings of the unit, enough for a product of two significands;
-- other ratios are fractions. Times are natural numbers, or the eight bytes of the packed float in
-- a tree head.
--
-- Left out: the compact form of a portable proof, the head's wire form and envelope, the chain
-- event source, the chain's governance client and the execution of a voted transition, receipts,
-- log lines, commitment and enforcement, coding by the library zfec, negative indices of shards,
-- negative prices and shares of a fee, the bridge's messages, servers, storage, back ends of
-- cryptography, the rest of consensus and the simulator.
mod Prelude
pub mod Dict
pub mod Merkle
pub mod Ledger
pub mod Deposits
pub mod Challenge
pub mod Writers
pub mod Payouts
pub mod Pricing
pub mod Admission
pub mod Breaker
pub mod Votes
pub mod AnchorStatus
pub mod Encoding
pub mod Policy
pub mod Sequencing
pub mod Galois
pub mod Erasure
pub mod Validators
pub mod Shards
pub mod Tests
