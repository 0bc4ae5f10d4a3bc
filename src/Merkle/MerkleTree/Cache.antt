-- ===== src/Merkle/MerkleTree/Cache.antt =====
-- The cached root of `MerkleTree` is never stale.
use suwappu_lattice_protocol.Prelude.{
  ℕ, ◌≤◌, ◌≡◌, refl, sym, ap, ◌∙◌, Option, none, some, List, [], ◌∷◌, ◌++◌, length, take, take_all,
  take-append_left, length-append, Bytes, ok, arith, ==-cases, inl, inr, ◌==◌, false, ◌<◌, subst,
}
use suwappu_lattice_protocol.Merkle.Functions.{leaf_hash, compute_root}
use suwappu_lattice_protocol.Merkle.Shape.{hash, build}
use suwappu_lattice_protocol.Merkle.Root.{compute_root-eq}
use suwappu_lattice_protocol.Merkle.MerkleTree.{
  MerkleTree, empty, append, root, refresh, cache_hit, capacity, leaf_checksum,
}

-- A cached root is the root of the leaves that were there when it was computed.
pub record IsCoherent (H : Bytes → Bytes) (t : MerkleTree) : Type 0 where
  pub counted : t.cache_leaf_count ≤ length t.leaves
  pub cached :
      (r : Bytes)
      → t.cached_root ≡ some r
      → compute_root H (take t.cache_leaf_count t.leaves) ≡ ok r

module _ (H : Bytes → Bytes) where
  pub empty-IsCoherent : IsCoherent H empty
  empty-IsCoherent = record { counted = omega arith; cached = λ r e. cc }

  -- What a successful append does.
  pub append-eq_ok :
      (t u : MerkleTree) (content : Bytes) (i : ℕ)
      → append H t content ≡ ok (u, i)
      → (u ≡ record t { leaves = t.leaves ++ (leaf_hash H content ∷ []) })
        × (i ≡ length t.leaves)
        × (length t.leaves < capacity)
  unfolding append
  append-eq_ok t u content i e = ground (arith, length-append t.leaves (leaf_hash H content ∷ []))

  appended-IsCoherent :
      (t : MerkleTree) (xs : List Bytes)
      → IsCoherent H t
      → IsCoherent H (record t { leaves = t.leaves ++ xs })
  appended-IsCoherent t xs c = record {
    counted = omega (arith, c.counted, length-append {0} t.leaves xs);
    cached = λ r e. rw (take-append_left t.cache_leaf_count t.leaves xs c.counted) (c.cached r e);
  }

  -- An append keeps a coherent tree coherent.
  pub append-IsCoherent :
      (t u : MerkleTree) (content : Bytes) (i : ℕ)
      → IsCoherent H t
      → append H t content ≡ ok (u, i)
      → IsCoherent H u
  append-IsCoherent t u content i c e =
      rw ((append-eq_ok t u content i e).0) (appended-IsCoherent t (leaf_hash H content ∷ []) c)

  -- On leaves that are there, `_compute_root` returns.
  pub compute_root-total :
      (xs : List Bytes) → 1 ≤ length xs → (r : Bytes) × (compute_root H xs ≡ ok r)
  compute_root-total xs h =
      let (t, e, s) = build xs h in
      (hash H t, subst (λ ys. compute_root H ys ≡ ok (hash H t)) e (compute_root-eq H t s))

  cache_hit-eq :
      (t : MerkleTree) (r : Bytes)
      → IsCoherent H t
      → cache_hit H t ≡ some r
      → compute_root H t.leaves ≡ ok r
  unfolding cache_hit
  cache_hit-eq t r c e = elim (==-cases (length t.leaves) t.cache_leaf_count) [
    | inl (n, b) ↦
        let found : t.cached_root ≡ some r = ground arith in
        subst (λ xs. compute_root H xs ≡ ok r)
          (ap (λ k. take k t.leaves) (sym n) ∙ take_all t.leaves) (c.cached r found)
    | inr (n, b) ↦ absurd (ground arith)
  ]

  refreshed-IsCoherent :
      (t : MerkleTree) (r : Bytes)
      → compute_root H t.leaves ≡ ok r
      → IsCoherent H (record t {
        cached_root = some r;
        cache_leaf_count = length t.leaves;
        cache_leaf_checksum = leaf_checksum H t;
      })
  refreshed-IsCoherent t r e = record {
    counted = omega arith;
    cached = λ s p. rw (take_all t.leaves) (e ∙ ap ok (cc));
  }

  refresh-eq :
      (t : MerkleTree) (o : Option Bytes)
      → cache_hit H t ≡ o
      → IsCoherent H t
      → 1 ≤ length t.leaves
      → (u : MerkleTree) × (r : Bytes) × (refresh H t o ≡ ok (u, r))
        × (compute_root H t.leaves ≡ ok r)
        × (u.leaves ≡ t.leaves)
        × IsCoherent H u
  unfolding refresh
  refresh-eq t (some r) e c h = (t, r, refl, cache_hit-eq t r c e, refl, c)
  refresh-eq t none e c h =
      let (r, computed) = compute_root-total t.leaves h in
      (_, r, rw computed, computed, refl, refreshed-IsCoherent t r computed)

  -- On a tree with leaves, `root` returns the root of the present leaves, cached or not; it keeps
  -- the leaves and the coherence of the cache.
  pub root-refreshed :
      (t : MerkleTree)
      → IsCoherent H t
      → 1 ≤ length t.leaves
      → (u : MerkleTree) × (r : Bytes) × (root H t ≡ ok (u, r))
        × (compute_root H t.leaves ≡ ok r)
        × (u.leaves ≡ t.leaves)
        × IsCoherent H u
  unfolding root
  root-refreshed t c h =
      let e : (length t.leaves == 0) ≡ false = ground arith in
      rw e (refresh-eq t (cache_hit H t) refl c h)
