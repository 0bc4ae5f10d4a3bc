-- ===== src/Merkle/Log/Included.antt =====
-- A log proves the inclusion of each of its records.
use suwappu_lattice_protocol.Prelude.{
  ℕ, zero, suc, ◌≤◌, ◌<◌, ◌≡◌, ap, sym, ◌∙◌, refl, subst, true, some, List, [], ◌∷◌, length,
  get_elem?, ltb, Bytes, bytes_eq, bytes_eq_refl, ok, arith,
}
use suwappu_lattice_protocol.Merkle.Functions.{
  leaf_hash, compute_root, audit_path_fuel, verify_inclusion,
}
use suwappu_lattice_protocol.Merkle.Shape.{leaves, size, hash, length-leaves, build}
use suwappu_lattice_protocol.Merkle.Inclusion.{siblings, audit_path-eq, verify_inclusion-siblings}
use suwappu_lattice_protocol.Merkle.Guarantees.{hashed, length-hashed, root_of_tree}
use suwappu_lattice_protocol.Merkle.MerkleTree
use suwappu_lattice_protocol.Merkle.MerkleTree.{MerkleTree}
use suwappu_lattice_protocol.Merkle.Proof.{InclusionProof, verify}
use suwappu_lattice_protocol.Merkle.Log.{MerkleLog, inclusion_proof}
use suwappu_lattice_protocol.Merkle.Log.Invariant.{IsRootOf, IsLog, root-eq}

module _ (H : Bytes → Bytes) where
  get_elem?-hashed :
      (rs : List Bytes) (i : ℕ) (d : Bytes)
      → get_elem? rs i ≡ some d
      → get_elem? (hashed H rs) i ≡ some (leaf_hash H d)
  get_elem?-hashed [] i d e = absurd (cc)
  get_elem?-hashed (r ∷ rs) zero d e = ap some (ap (leaf_hash H) (cc))
  get_elem?-hashed (r ∷ rs) (suc i) d e = get_elem?-hashed rs i d e

  index-lt : (rs : List Bytes) (i : ℕ) (d : Bytes) → get_elem? rs i ≡ some d → i < length rs
  index-lt [] i d e = absurd (cc)
  index-lt (r ∷ rs) zero d e = omega arith
  index-lt (r ∷ rs) (suc i) d e = omega (arith, index-lt rs i d e)

  pub IsRootOf-nonempty :
      (rs : List Bytes) (root : Bytes)
      → 1 ≤ length rs
      → IsRootOf H rs root
      → compute_root H (hashed H rs) ≡ ok root
  IsRootOf-nonempty [] root n h = absurd (omega arith)
  IsRootOf-nonempty (r ∷ rs) root n h = h

  verify-eq :
      (i n : ℕ) (path : List Bytes) (d root : Bytes)
      → bytes_eq (verify_inclusion H i n (leaf_hash H d) path) root ≡ true
      → verify H
          (record { leaf_index = i; tree_size = n; audit_path = path; root_hash = root })
          d
          root
        ≡ true
  unfolding verify
  verify-eq i n path d root e = rw bytes_eq_refl e

  -- For every record of a valid log, `inclusion_proof` returns a proof for its index, relative to
  -- the root of the log's records, that `verify` accepts for the record; the records stay.
  pub inclusion_proof-verify :
      (log : MerkleLog) (i : ℕ) (d : Bytes)
      → IsLog H log
      → get_elem? log.records i ≡ some d
      → (log' : MerkleLog) × (p : InclusionProof) × (inclusion_proof H log i ≡ ok (log', p))
        × IsLog H log'
        × (log'.records ≡ log.records)
        × (p.leaf_index ≡ i)
        × IsRootOf H log.records p.root_hash
        × (verify H p d p.root_hash ≡ true)
  unfolding inclusion_proof MerkleTree.audit_path
  inclusion_proof-verify log i d v e =
      let lt : i < length log.records = index-lt log.records i d e in
      let z : length log.tree.leaves ≡ length log.records =
        ap length v.hashes ∙ length-hashed H log.records in
      let (t, et, st) = build log.tree.leaves (omega arith) in
      let zt : size t ≡ length log.tree.leaves = sym (length-leaves t) ∙ ap length et in
      let inside : ltb i (length log.tree.leaves) ≡ true = ground arith in
      let path : audit_path_fuel H (length log.tree.leaves) i log.tree.leaves
          ≡ ok (siblings H i t) =
        subst (λ xs. audit_path_fuel H (length log.tree.leaves) i xs ≡ ok (siblings H i t)) et
          (audit_path-eq H (length log.tree.leaves) i t st (omega arith)) in
      let (u, r, p, l, c, rooted) = root-eq H log v in
      let top : r ≡ hash H t =
        root_of_tree H t log.tree.leaves r et st
          (rw v.hashes (IsRootOf-nonempty log.records r (omega arith) rooted)) in
      let here : get_elem? (leaves t) i ≡ some (leaf_hash H d) =
        ap (λ xs. get_elem? xs i) (et ∙ v.hashes) ∙ get_elem?-hashed log.records i d e in
      let climbed = verify_inclusion-siblings H i t (leaf_hash H d) st here in
      (
        record log { tree = u },
        record {
          leaf_index = i;
          tree_size = length log.tree.leaves;
          audit_path = siblings H i t;
          root_hash = r;
        },
        rw (inside, path, p) refl,
        record {
          hashes = l ∙ v.hashes;
          coherent = c;
          counted = v.counted;
          numbered = v.numbered;
          heads = v.heads;
        },
        refl,
        refl,
        rooted,
        verify-eq i (length log.tree.leaves) (siblings H i t) d r
            (rw (← zt, climbed, top) (bytes_eq_refl (hash H t))),
      )
