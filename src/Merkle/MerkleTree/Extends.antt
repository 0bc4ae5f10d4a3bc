-- ===== src/Merkle/MerkleTree/Extends.antt =====
-- `consistency_proof` of a tree and `verify_consistency` (src/ltp/merkle_log/tree.py) fit together.
use suwappu_lattice_protocol.Prelude.{
  ℕ, ◌≤◌, ◌≡◌, ap, sym, ◌∙◌, refl, true, false, List, [], length, take, take_all, ltb, ==-cases,
  inl, inr, Bytes, bytes_eq_refl, ok, ok-inj, arith,
}
use suwappu_lattice_protocol.Merkle.Functions.{compute_root, verify_consistency}
use suwappu_lattice_protocol.Merkle.Shape.{leaves, size, length-leaves, build}
use suwappu_lattice_protocol.Merkle.Prefix.{first, proof, leaves-first, first-IsShaped, subproof-eq}
use suwappu_lattice_protocol.Merkle.Consistency.{verify_consistency-proof}
use suwappu_lattice_protocol.Merkle.Guarantees.{root_of_tree}
use suwappu_lattice_protocol.Merkle.MerkleTree.{MerkleTree, consistency_proof}

module _ (H : Bytes → Bytes) where
  same_size : (n : ℕ) (root : Bytes) → 1 ≤ n → verify_consistency H n n root root [] ≡ true
  unfolding verify_consistency
  same_size n root h = ground (arith, bytes_eq_refl root)

  -- For an old size from 1 to the size of the tree, `consistency_proof` returns a proof, and
  -- `verify_consistency` accepts it for the root of the first leaves and the root of all leaves.
  pub consistency_proof-verify :
      (t : MerkleTree) (m : ℕ) (old new : Bytes)
      → 1 ≤ m
      → m ≤ length t.leaves
      → compute_root H (take m t.leaves) ≡ ok old
      → compute_root H t.leaves ≡ ok new
      → (p : List Bytes) × (consistency_proof H t m ≡ ok p)
        × (verify_consistency H m (length t.leaves) old new p ≡ true)
  unfolding consistency_proof
  consistency_proof-verify t m old new pos le co cn =
      let a : ltb m 1 ≡ false = ground arith in
      let b : ltb (length t.leaves) m ≡ false = ground arith in
      elim (==-cases m (length t.leaves)) [
        | inl (q, e) ↦
            let all : take m t.leaves ≡ t.leaves =
              ap (λ k. take k t.leaves) q ∙ take_all t.leaves in
            let same : old ≡ new = ok-inj (sym co ∙ ap (compute_root H) all ∙ cn) in
            ([], rw (a, b, e) refl, rw (q, same) (same_size (length t.leaves) new (omega arith)))
        | inr (q, e) ↦
            let (u, eu, su) = build t.leaves (omega arith) in
            let z : size u ≡ length t.leaves = sym (length-leaves u) ∙ ap length eu in
            let mu : m ≤ size u = omega arith in
            let prefix : leaves (first m u) ≡ take m t.leaves =
              leaves-first m u pos mu ∙ ap (take m) eu in
            let eo =
              root_of_tree H (first m u) (take m t.leaves) old prefix (first-IsShaped m u pos mu su)
                co in
            let en = root_of_tree H u t.leaves new eu su cn in
            let path = subproof-eq H (length t.leaves) m u true su (omega arith) pos mu in
            (
              proof H m u true,
              rw (a, b, e) (rw eu at path),
              rw (eo, en, ← z) (verify_consistency-proof H m u su pos (omega arith)),
            )
      ]
