-- ===== src/Merkle/Tests/Logs.antt =====
-- A log of one record with two published heads, and one of three records.
use suwappu_lattice_protocol.Prelude.{
  ℕ, ◌≡◌, refl, true, false, some, List, [], ◌∷◌, ◌++◌, replicate, Bytes, bytes_discrete, ok,
}
use suwappu_lattice_protocol.Merkle.Functions.{leaf_hash, compute_root_fuel}
use suwappu_lattice_protocol.Merkle.Proof.{InclusionProof, verify}
use suwappu_lattice_protocol.Merkle.MerkleTree
use suwappu_lattice_protocol.Merkle.MerkleTree.{MerkleTree}
use suwappu_lattice_protocol.Merkle.Sth
use suwappu_lattice_protocol.Merkle.Sth.{SignedTreeHead, raw_key, Mldsa}
use suwappu_lattice_protocol.Merkle.Sth.Payload.{payload-inj}
use suwappu_lattice_protocol.Merkle.Log.{
  MerkleLog, init, append, publish_sth, inclusion_proof, detect_equivocation,
}
use suwappu_lattice_protocol.Merkle.Log.Invariant.{
  IsRootOf, IsLog, init-IsLog, append-IsLog, publish_sth-IsLog,
}
use suwappu_lattice_protocol.Merkle.Log.Included.{inclusion_proof-verify}
use suwappu_lattice_protocol.Merkle.Log.Heads.{detect_equivocation-own}
use suwappu_lattice_protocol.Merkle.Tests.{pad, accepting, one, pair_root}

abbrev clock : Bytes
clock = replicate 8 0

payload-inj_example :
    (◌≡◌ {A = ℕ} 3 3) × (◌≡◌ {A = ℕ} 2 2) × (clock ≡ clock) × (pair_root ≡ pair_root)
unfolding Sth.payload Sth.pack_u64
payload-inj_example =
    payload-inj 3 3 2 2 clock clock pair_root pair_root
      (Sth.u64_bytes 3 ++ (Sth.u64_bytes 2 ++ (clock ++ pair_root))) refl refl refl refl

abbrev log_one : MerkleLog
log_one = record (init [] (raw_key [])) {
  tree = record MerkleTree.empty { leaves = leaf_hash pad one ∷ [] };
  records = one ∷ [];
}

append-one : append pad (init [] (raw_key [])) one ≡ ok (log_one, 0)
unfolding append MerkleTree.append
append-one = refl

append-IsLog_example : IsLog pad log_one × (log_one.records ≡ one ∷ []) × (◌≡◌ {A = ℕ} 0 0)
append-IsLog_example =
    append-IsLog pad (init [] (raw_key [])) log_one one 0 (init-IsLog pad [] (raw_key []))
      append-one

inclusion_proof-verify_example :
    (log' : MerkleLog) × (p : InclusionProof) × (inclusion_proof pad log_one 0 ≡ ok (log', p))
    × IsLog pad log'
    × (log'.records ≡ log_one.records)
    × (p.leaf_index ≡ 0)
    × IsRootOf pad log_one.records p.root_hash
    × (verify pad p one p.root_hash ≡ true)
inclusion_proof-verify_example =
    inclusion_proof-verify pad log_one 0 one
      (append-IsLog pad (init [] (raw_key [])) log_one one 0 (init-IsLog pad [] (raw_key []))
        append-one).0
      refl

abbrev head : ℕ → ℕ → Bytes → SignedTreeHead
head n size root = record {
  sequence = n;
  tree_size = size;
  timestamp = clock;
  root_hash = root;
  operator_vk = [];
  signature = Sth.u64_bytes n ++ (Sth.u64_bytes size ++ (clock ++ root));
}

abbrev cached_tree : MerkleTree
cached_tree = record {
  leaves = leaf_hash pad one ∷ [];
  cached_root = some (leaf_hash pad one);
  cache_leaf_count = 1;
  cache_leaf_checksum = pad (leaf_hash pad one);
}

abbrev log_head : ℕ → List SignedTreeHead → MerkleLog
log_head n heads = record log_one { tree = cached_tree; sths = heads; sequence = n }

abbrev first_head : SignedTreeHead
first_head = head 0 1 (leaf_hash pad one)

abbrev second_head : SignedTreeHead
second_head = head 1 1 (leaf_hash pad one)

publish-first :
    publish_sth pad accepting log_one clock ≡ ok (log_head 1 (first_head ∷ []), first_head)
unfolding publish_sth MerkleTree.root MerkleTree.cache_hit MerkleTree.refresh
    MerkleTree.leaf_checksum Sth.sign Sth.sign_message Sth.payload Sth.pack_u64 compute_root_fuel
    bytes_discrete leaf_hash mathlib.Core.List.flatten
publish-first = refl

publish-second :
    publish_sth pad accepting (log_head 1 (first_head ∷ [])) clock
    ≡ ok (log_head 2 (first_head ∷ second_head ∷ []), second_head)
unfolding publish_sth MerkleTree.root MerkleTree.cache_hit MerkleTree.refresh
    MerkleTree.leaf_checksum Sth.sign Sth.sign_message Sth.payload Sth.pack_u64 compute_root_fuel
    bytes_discrete leaf_hash mathlib.Core.List.flatten
publish-second = refl

log_one-IsLog : IsLog pad log_one
log_one-IsLog =
    (append-IsLog pad (init [] (raw_key [])) log_one one 0 (init-IsLog pad [] (raw_key []))
      append-one).0

log_head-IsLog : IsLog pad (log_head 1 (first_head ∷ []))
log_head-IsLog =
    (publish_sth-IsLog pad accepting log_one (log_head 1 (first_head ∷ [])) clock first_head
      log_one-IsLog publish-first).0

abbrev two_heads : MerkleLog
two_heads = log_head 2 (first_head ∷ second_head ∷ [])

two_heads-IsLog : IsLog pad two_heads
two_heads-IsLog =
    (publish_sth-IsLog pad accepting (log_head 1 (first_head ∷ []))
      (log_head 2 (first_head ∷ second_head ∷ [])) clock second_head log_head-IsLog
      publish-second).0

publish_sth-IsLog_example :
    IsLog pad (log_head 1 (first_head ∷ []))
    × (log_one.records ≡ log_one.records)
    × ((first_head ∷ []) ≡ (first_head ∷ []))
    × (first_head.sequence ≡ 0)
    × (first_head.tree_size ≡ 1)
    × IsRootOf pad log_one.records (leaf_hash pad one)
publish_sth-IsLog_example =
    publish_sth-IsLog pad accepting log_one (log_head 1 (first_head ∷ [])) clock first_head
      log_one-IsLog publish-first

first_head-verified : Sth.verify accepting first_head ≡ ok true
unfolding Sth.verify Sth.signable_payload Sth.payload Sth.pack_u64
first_head-verified = refl

second_head-verified : Sth.verify accepting second_head ≡ ok true
unfolding Sth.verify Sth.signable_payload Sth.payload Sth.pack_u64
second_head-verified = refl

detect_equivocation-own_example :
    detect_equivocation pad accepting first_head second_head ≡ ok false
detect_equivocation-own_example =
    detect_equivocation-own pad accepting (log_head 2 (first_head ∷ second_head ∷ [])) 0 1
      first_head second_head true true two_heads-IsLog refl refl first_head-verified
      second_head-verified
