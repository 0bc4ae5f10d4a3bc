-- ===== src/Merkle/Root.antt =====
-- `_compute_root` of tree.py against the abstract tree's hash.
use suwappu_lattice_protocol.Prelude.{
  ℕ, zero, suc, ◌≤◌, ◌≡◌, refl, List, [], ◌∷◌, ◌++◌, length, take, drop, Bytes, ok, ◌>>=◌, arith,
}
use suwappu_lattice_protocol.Merkle.Functions.{
  largest_pow2_below, internal_hash, compute_root_fuel, compute_root,
}
use suwappu_lattice_protocol.Merkle.Shape.{
  Tree, leaf, fork, leaves, size, hash, IsShaped, length-leaves, size-pos, split_of_fork,
  length-fork, take-fork, drop-fork,
}

module _ (H : Bytes → Bytes) where
  -- One step of the recursion, on a list known to have two leaves or more.
  pub compute_root_step :
      (f : ℕ) (xs : List Bytes)
      → 2 ≤ length xs
      → compute_root_fuel H (suc f) xs ≡ (
          compute_root_fuel H f (take (largest_pow2_below (length xs)) xs) >>= λ left.
          compute_root_fuel H f (drop (largest_pow2_below (length xs)) xs) >>= λ right.
          ok (internal_hash H left right))
  unfolding compute_root_fuel
  compute_root_step f [] h = absurd (omega arith)
  compute_root_step f (x ∷ []) h = absurd (omega arith)
  compute_root_step f (x ∷ y ∷ xs) h = refl

  pub compute_root_fuel-eq :
      (f : ℕ) (t : Tree)
      → IsShaped t
      → size t ≤ f
      → compute_root_fuel H f (leaves t) ≡ ok (hash H t)
  compute_root_fuel-eq zero t s h = absurd (omega (arith, size-pos t))
  compute_root_fuel-eq (suc f) (leaf x) s h = unfold compute_root_fuel in refl
  compute_root_fuel-eq (suc f) (fork l r) s h =
      rw
        (
          compute_root_step f (leaves l ++ leaves r)
              (omega (arith, length-fork l r, size-pos l, size-pos r)),
          length-fork l r,
          split_of_fork l r s,
          take-fork l r,
          drop-fork l r,
          compute_root_fuel-eq f l s.0 (omega (arith, size-pos r)),
          compute_root_fuel-eq f r s.1 (omega (arith, size-pos l)),
        )
        refl

  pub compute_root-eq : (t : Tree) → IsShaped t → compute_root H (leaves t) ≡ ok (hash H t)
  compute_root-eq t s =
      compute_root_fuel-eq (suc (length (leaves t))) t s (omega (arith, length-leaves t))
