-- ===== src/Merkle/AppendOnly.antt =====
-- `verify_consistency` (src/ltp/merkle_log/tree.py) over the records of two logs.
use suwappu_lattice_protocol.Prelude.{
  ℕ, zero, suc, ◌<◌, ◌≡◌, refl, sym, ap, ◌∙◌, true, ◌⊎◌, inl, inr, Option, none, some, List, [],
  ◌∷◌, length, take, take_all, Bytes, bytes_eq→eq, ok, arith, All, subst, ==-cases,
}
use suwappu_lattice_protocol.Merkle.Functions.{
  leaf_hash, compute_root, Rebuilt, rebuild, roots_match, verify_consistency,
}
use suwappu_lattice_protocol.Merkle.Shape.{Tree, leaves, size, hash, IsShaped, length-leaves, build}
use suwappu_lattice_protocol.Merkle.Soundness.{IsWide}
use suwappu_lattice_protocol.Merkle.Membership.{hashed-IsWide}
use suwappu_lattice_protocol.Merkle.Collision.{Collision, IsDigest, leaf_hash-inj, ◌>>=◌}
use suwappu_lattice_protocol.Merkle.ConsistencySound.{same_leaves, rebuild_sound}
use suwappu_lattice_protocol.Merkle.Guarantees.{
  hashed, length-hashed, hashed-IsLeafHash, root_of_tree, compute_root-nonempty,
}

module _ (H : Bytes → Bytes) where
  roots_match-inv :
      (old_root new_root : Bytes) (p : List Bytes) (o : Option Rebuilt)
      → roots_match old_root new_root p o ≡ true
      → (r : Rebuilt) × (o ≡ some r) × (r.old_hash ≡ old_root) × (r.new_hash ≡ new_root)
  unfolding roots_match
  roots_match-inv old_root new_root p none e = absurd (cc)
  roots_match-inv old_root new_root p (some r) e =
      (r, refl, bytes_eq→eq _ _ (ground arith), bytes_eq→eq _ _ (ground arith))

  -- An accepted proof, taken apart.
  accepted :
      (m n : ℕ) (old_root new_root : Bytes) (p : List Bytes)
      → verify_consistency H m n old_root new_root p ≡ true
      → ((m ≡ n) × (old_root ≡ new_root))
        ⊎ ((m < n)
            × ((r : Rebuilt) × (rebuild H n old_root m n true p 0 ≡ some r)
                × (r.old_hash ≡ old_root)
                × (r.new_hash ≡ new_root)))
  unfolding verify_consistency
  accepted m n old_root new_root p e = elim (==-cases m n) [
    | inl (q, t) ↦ inl (q, bytes_eq→eq old_root new_root (ground arith))
    | inr (ne, t) ↦ inr (
      ground arith,
      roots_match-inv old_root new_root p (rebuild H n old_root m n true p 0) (ground arith),
    )
  ]

  pub hashed-take : (m : ℕ) (rs : List Bytes) → take m (hashed H rs) ≡ hashed H (take m rs)
  hashed-take zero rs = refl
  hashed-take (suc m) [] = refl
  hashed-take (suc m) (r ∷ rs) = ap (◌∷◌ (leaf_hash H r)) (hashed-take m rs)

  hashed-inj : (rs qs : List Bytes) → hashed H rs ≡ hashed H qs → (rs ≡ qs) ⊎ Collision H
  hashed-inj [] [] e = inl refl
  hashed-inj [] (q ∷ qs) e = absurd (cc)
  hashed-inj (r ∷ rs) [] e = absurd (cc)
  hashed-inj (r ∷ rs) (q ∷ qs) e = do
    x ← leaf_hash-inj H r q (cc)
    xs ← hashed-inj rs qs (cc)
    inl (cc)

  module _ (digest : IsDigest H) (olds news : List Bytes) (old_root new_root : Bytes) where
    -- The same for the trees over the hashed records.
    trees_sound :
        (p : List Bytes) (t u : Tree)
        → IsShaped t
        → IsShaped u
        → leaves t ≡ hashed H olds
        → leaves u ≡ hashed H news
        → size t ≡ length olds
        → size u ≡ length news
        → old_root ≡ hash H t
        → new_root ≡ hash H u
        → verify_consistency H (length olds) (length news) old_root new_root p ≡ true
        → (leaves t ≡ take (length olds) (leaves u)) ⊎ Collision H
    trees_sound p t u st su et eu zt zu rt ru v =
        let m = length olds in
        let wt =
          subst (All IsWide) (sym et)
            (hashed-IsWide H digest (hashed H olds) (hashed-IsLeafHash H olds)) in
        let wu =
          subst (All IsWide) (sym eu)
            (hashed-IsWide H digest (hashed H news) (hashed-IsLeafHash H news)) in
        elim (accepted m (length news) old_root new_root p v) [
          | inl (q, same) ↦ do
            l ← same_leaves H digest t u st su wt wu (zt ∙ q ∙ sym zu) (sym rt ∙ same ∙ ru)
            inl (
                l
                ∙ sym (take_all (leaves u))
                ∙ ap (λ k. take k (leaves u)) (length-leaves u ∙ zu ∙ sym q))
          | inr (lt, (r, e, o, n)) ↦
              rebuild_sound H digest (length news) m t u old_root true p 0 r st su wt wu zt
                (omega arith) (rw zu e) (o ∙ rt) (n ∙ ru)
        ]

    -- If the verifier accepts any proof for the sizes and the roots of two non-empty logs, then the
    -- old log's records are the first records of the new log, unless two inputs of the hash
    -- function with one digest are found.
    pub verify_consistency_sound :
        (p : List Bytes)
        → compute_root H (hashed H olds) ≡ ok old_root
        → compute_root H (hashed H news) ≡ ok new_root
        → verify_consistency H (length olds) (length news) old_root new_root p ≡ true
        → (olds ≡ take (length olds) news) ⊎ Collision H
    verify_consistency_sound p co cn v =
        let (t, et, st) =
          build (hashed H olds) (compute_root-nonempty H (hashed H olds) old_root co) in
        let (u, eu, su) =
          build (hashed H news) (compute_root-nonempty H (hashed H news) new_root cn) in
        let zt : size t ≡ length olds =
          sym (length-leaves t) ∙ ap length et ∙ length-hashed H olds in
        let zu : size u ≡ length news =
          sym (length-leaves u) ∙ ap length eu ∙ length-hashed H news in
        do
          prefix ←
              trees_sound p t u st su et eu zt zu
                (root_of_tree H t (hashed H olds) old_root et st co)
                (root_of_tree H u (hashed H news) new_root eu su cn) v
          hashed-inj olds (take (length olds) news)
              (sym et ∙ prefix ∙ ap (take (length olds)) eu ∙ hashed-take (length olds) news)
