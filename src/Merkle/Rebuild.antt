-- ===== src/Merkle/Rebuild.antt =====
-- One call of `_verify` in `verify_consistency` (tree.py), taken apart: what a result that is not
-- None was built from.
use suwappu_lattice_protocol.Prelude.{
  ℕ, zero, suc, ◌≡◌, ◌≢◌, refl, sym, ap, ◌∙◌, Bool, true, false, ◌⊎◌, inl, inr, Option, none, some,
  List, [], ◌∷◌, length, leb-cases, ==-cases, Bytes, arith, All,
}
use suwappu_lattice_protocol.Merkle.Functions.{
  largest_pow2_below, internal_hash, Rebuilt, right_node, left_node, add_right_sibling,
  add_left_sibling, known_subtree, rebuild,
}
use suwappu_lattice_protocol.Merkle.Shape.{Tree, leaves, hash}
use suwappu_lattice_protocol.Merkle.Collision.{IsDigest}
use suwappu_lattice_protocol.Merkle.Soundness.{IsWide, hash-IsWide}

pub known-same :
    (old_root : Bytes) (start : Bool) (p : List Bytes) (c : ℕ) (r : Rebuilt)
    → known_subtree old_root start p c ≡ some r
    → r.old_hash ≡ r.new_hash
unfolding known_subtree
known-same old_root true p c r e = ground arith
known-same old_root false [] c r e = cc
known-same old_root false (x ∷ p) c r e = ground arith

module _ (H : Bytes → Bytes) where
  right_node-inv :
      (r : Rebuilt) (unread : List Bytes) (res : Rebuilt)
      → right_node H r unread ≡ some res
      → (s : Bytes) × (res.old_hash ≡ r.old_hash) × (res.new_hash ≡ internal_hash H r.new_hash s)
  unfolding right_node
  right_node-inv r [] res e = absurd (cc)
  right_node-inv r (s ∷ unread) res e = (s, ground arith, ground arith)

  left_node-inv :
      (r : Rebuilt) (unread : List Bytes) (res : Rebuilt)
      → left_node H r unread ≡ some res
      → (s : Bytes) × (res.old_hash ≡ internal_hash H s r.old_hash)
        × (res.new_hash ≡ internal_hash H s r.new_hash)
  unfolding left_node
  left_node-inv r [] res e = absurd (cc)
  left_node-inv r (s ∷ unread) res e = (s, ground arith, ground arith)

  pub add_right_sibling-inv :
      (o : Option Rebuilt) (res : Rebuilt)
      → add_right_sibling H o ≡ some res
      → (r : Rebuilt) × (s : Bytes) × (o ≡ some r)
        × (res.old_hash ≡ r.old_hash)
        × (res.new_hash ≡ internal_hash H r.new_hash s)
  add_right_sibling-inv none res e = unfold add_right_sibling in absurd (cc)
  add_right_sibling-inv (some r) res e =
      let (s, p, q) = right_node-inv r r.unread res (unfold add_right_sibling in e) in
      (r, s, refl, p, q)

  pub add_left_sibling-inv :
      (o : Option Rebuilt) (res : Rebuilt)
      → add_left_sibling H o ≡ some res
      → (r : Rebuilt) × (s : Bytes) × (o ≡ some r)
        × (res.old_hash ≡ internal_hash H s r.old_hash)
        × (res.new_hash ≡ internal_hash H s r.new_hash)
  add_left_sibling-inv none res e = unfold add_left_sibling in absurd (cc)
  add_left_sibling-inv (some r) res e =
      let (s, p, q) = left_node-inv r r.unread res (unfold add_left_sibling in e) in
      (r, s, refl, p, q)

  module _ (digest : IsDigest H) where
    pub internal-IsWide : (a b : Bytes) → IsWide (internal_hash H a b)
    unfolding internal_hash
    internal-IsWide a b = digest.width _

    -- A rebuilt new root is a digest, or both roots were read as one node.
    rebuild-IsWide :
        (f : ℕ) (old_root : Bytes) (m n : ℕ) (start : Bool) (p : List Bytes) (c : ℕ) (res : Rebuilt)
        → rebuild H f old_root m n start p c ≡ some res
        → ((m ≡ n) × (res.old_hash ≡ res.new_hash)) ⊎ IsWide res.new_hash
    unfolding rebuild
    rebuild-IsWide zero old_root m n start p c res e = absurd (cc)
    rebuild-IsWide (suc f) old_root m n start p c res e = elim (==-cases m n) [
      | inl (q, t) ↦ inl (q, known-same old_root start p c res (rw t at e))
      | inr (q, t) ↦ elim (leb-cases m (largest_pow2_below n)) [
        | inl (_, u) ↦
            let (r, s, _, _, b) = add_right_sibling-inv _ res (rw (t, u) at e) in
            inr (rw b (internal-IsWide r.new_hash s))
        | inr (_, u) ↦
            let (r, s, _, _, b) = add_left_sibling-inv _ res (rw (t, u) at e) in
            inr (rw b (internal-IsWide s r.new_hash))
      ]
    ]

    pub node_IsWide :
        (f m n : ℕ) (old : Tree) (old_root : Bytes) (start : Bool) (p : List Bytes) (c : ℕ)
        (res : Rebuilt)
        → All IsWide (leaves old)
        → rebuild H f old_root m n start p c ≡ some res
        → res.old_hash ≡ hash H old
        → IsWide res.new_hash
    node_IsWide f m n old old_root start p c res w e eo =
        elim (rebuild-IsWide f old_root m n start p c res e) [
          | inl (_, same) ↦ ap length (sym same ∙ eo) ∙ hash-IsWide H digest old w
          | inr wide ↦ wide
        ]

    pub span_IsWide :
        (f m n : ℕ) (old_root : Bytes) (start : Bool) (p : List Bytes) (c : ℕ) (res : Rebuilt)
        → m ≢ n
        → rebuild H f old_root m n start p c ≡ some res
        → IsWide res.new_hash
    span_IsWide f m n old_root start p c res ne e =
        elim (rebuild-IsWide f old_root m n start p c res e) [
          | inl (same, _) ↦ absurd (ne same)
          | inr wide ↦ wide
        ]
