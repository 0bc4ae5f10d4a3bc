-- ===== src/Merkle/Consistency.antt =====
-- `verify_consistency` of tree.py accepts the proofs that `consistency_proof` gives.
use native.Mathlib.Nat.{add-sub_cancel_left, add-zero, add_assoc, zero-add}
use mathlib.Core.List.{append_assoc, append-nil}
use suwappu_lattice_protocol.Prelude.{
  ℕ, zero, suc, ◌+◌, ◌-◌, ◌≤◌, ◌<◌, ◌≡◌, refl, Bool, true, false, inl, inr, some, List, [], ◌∷◌,
  ◌++◌, length, length-append, ltb, ◌==◌, if◌then◌else◌, Bytes, arith,
}
use suwappu_lattice_protocol.Merkle.Functions.{
  Rebuilt, add_right_sibling, add_left_sibling, known_subtree, rebuild, roots_match,
  verify_consistency,
}
use suwappu_lattice_protocol.Merkle.Shape.{
  Tree, leaf, fork, size, hash, IsShaped, size-pos, split_of_fork,
}
use suwappu_lattice_protocol.Merkle.Prefix.{first, proof, fork-cases}

module _ (H : Bytes → Bytes) where
  -- What the verifier has rebuilt after it has read the proof.
  abbrev result : ℕ → Tree → List Bytes → ℕ → Rebuilt
  result m t unread consumed = record {
    old_hash = hash H (first m t);
    new_hash = hash H t;
    unread = unread;
    consumed = consumed;
  }

  known-eq :
      (t : Tree) (start : Bool) (old_root : Bytes) (rest : List Bytes) (c : ℕ)
      → (start ≡ true → old_root ≡ hash H t)
      → known_subtree old_root start ((if start then [] else hash H t ∷ []) ++ rest) c
        ≡ some (record {
          old_hash = hash H t;
          new_hash = hash H t;
          unread = rest;
          consumed = c + length (if start then [] else hash H t ∷ []);
        })
  unfolding known_subtree
  known-eq t true old_root rest c h = rw (h refl, add-zero)
  known-eq t false old_root rest c h = refl

  module _ (old_root : Bytes) where
    -- Reading the proof of a tree, whatever follows it, rebuilds the two roots.
    pub rebuild-proof :
        (f m : ℕ) (t : Tree) (start : Bool) (rest : List Bytes) (c : ℕ)
        → IsShaped t
        → size t ≤ f
        → 1 ≤ m
        → m ≤ size t
        → (start ≡ true → old_root ≡ hash H (first m t))
        → rebuild H f old_root m (size t) start (proof H m t start ++ rest) c
          ≡ some (result m t rest (c + length (proof H m t start)))
    unfolding rebuild
    rebuild-proof zero m t start rest c s h pos le k = absurd (omega (arith, size-pos t))
    rebuild-proof (suc f) m (leaf x) start rest c s h pos le k =
        let e : (m == 1) ≡ true = ground arith in rw e (known-eq (leaf x) start old_root rest c k)
    rebuild-proof (suc f) m (fork l r) start rest c s h pos le k =
        rw (split_of_fork l r s) (elim (fork-cases m (size l) (size r) (size-pos r)) [
          | inl (e, t) ↦ rw t (known-eq (fork l r) start old_root rest c (rw t at k))
          | inr (inl (i, t, u)) ↦
              rw
                (
                  t,
                  u,
                  append_assoc,
                  rebuild-proof f m l start (hash H r ∷ rest) c s.0 (omega (arith, size-pos r)) pos
                      i (rw (t, u) at k),
                )
                (unfold add_right_sibling in rw (length-append, add_assoc))
          | inr (inr (j, t, u)) ↦
              rw
                (
                  t,
                  u,
                  append_assoc,
                  add-sub_cancel_left,
                  rebuild-proof f (m - size l) r false (hash H l ∷ rest) c s.1
                      (omega (arith, size-pos l)) (omega arith) (omega arith) (λ b. absurd (cc)),
                )
                (unfold add_left_sibling in rw (length-append, add_assoc))
        ])

  -- For the tree and its prefix of `m` leaves the verifier accepts the tree's proof.
  pub verify_consistency-proof :
      (m : ℕ) (t : Tree)
      → IsShaped t
      → 1 ≤ m
      → m < size t
      → verify_consistency H m (size t) (hash H (first m t)) (hash H t) (proof H m t true) ≡ true
  unfolding verify_consistency
  verify_consistency-proof m t s pos lt =
      let old = hash H (first m t) in
      let rebuilt =
        rebuild-proof old (size t) m t true [] 0 s (omega arith) pos (omega arith) (λ _. refl) in
      let read : rebuild H (size t) old m (size t) true (proof H m t true) 0
          ≡ some (result m t [] (length (proof H m t true))) =
        rw (append-nil, zero-add) at rebuilt in
      let a : (ltb m 1) ≡ false = ground arith in
      let b : (ltb (size t) m) ≡ false = ground arith in
      let c : (m == size t) ≡ false = ground arith in rw (a, b, c, read, roots_match) (ground arith)
