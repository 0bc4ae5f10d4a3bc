-- ===== src/Merkle/Guarantees.antt =====
-- `InclusionProof.verify` (src/ltp/merkle_log/proof.py) over the records of a log: what is proved
-- by an accepted proof.
use suwappu_lattice_protocol.Prelude.{
  ℕ, zero, suc, ◌≤◌, ◌<◌, ◌≡◌, refl, sym, ap, ◌∙◌, true, ◌⊎◌, inl, inr, some, List, [], ◌∷◌, map,
  length, get_elem?, Bytes, bytes_eq→eq, ok, arith, All, subst, reverse,
}
use suwappu_lattice_protocol.Merkle.Functions.{
  leaf_hash, internal_hash, compute_root, compute_root_fuel, directions, climb, verify_inclusion,
  largest_pow2_below,
}
use suwappu_lattice_protocol.Merkle.Shape.{Tree, leaves, size, hash, IsShaped, length-leaves, build}
use suwappu_lattice_protocol.Merkle.Root.{compute_root-eq}
use suwappu_lattice_protocol.Merkle.Inclusion.{turns, directions-eq}
use suwappu_lattice_protocol.Merkle.Soundness.{IsWide, climb_sound}
use suwappu_lattice_protocol.Merkle.Membership.{
  Contains, IsLeafHash, hashed-IsWide, leaf_hash-IsWide, climb-member,
}
use suwappu_lattice_protocol.Merkle.Collision.{Collision, IsDigest, leaf_hash-inj}
use suwappu_lattice_protocol.Merkle.Proof.{InclusionProof, verify}

-- The leaves of the tree over the records.
abbrev pub hashed : (Bytes → Bytes) → List Bytes → List Bytes
hashed H = map (leaf_hash H)

pub length-hashed : (H : Bytes → Bytes) (rs : List Bytes) → length (hashed H rs) ≡ length rs
length-hashed H [] = refl
length-hashed H (r ∷ rs) = ap suc (length-hashed H rs)

pub hashed-IsLeafHash : (H : Bytes → Bytes) (rs : List Bytes) → All (IsLeafHash H) (hashed H rs)
hashed-IsLeafHash H [] = tt
hashed-IsLeafHash H (r ∷ rs) = ((r, refl), hashed-IsLeafHash H rs)

module _ (H : Bytes → Bytes) where
  -- A hashed record in the leaves is a record, unless two records have one digest.
  record_at :
      (rs : List Bytes) (i : ℕ) (d : Bytes)
      → get_elem? (hashed H rs) i ≡ some (leaf_hash H d)
      → (get_elem? rs i ≡ some d) ⊎ Collision H
  record_at [] i d e = absurd (cc)
  record_at (r ∷ rs) zero d e = elim (leaf_hash-inj H r d (cc)) [
    | inl p ↦ inl (ap some p)
    | inr c ↦ inr c
  ]
  record_at (r ∷ rs) (suc i) d e = record_at rs i d e

  record_of :
      (rs : List Bytes) (d : Bytes)
      → Contains (leaf_hash H d) (hashed H rs)
      → Contains d rs ⊎ Collision H
  record_of [] d h = absurd h
  record_of (r ∷ rs) d (inl e) = elim (leaf_hash-inj H r d e) [
    | inl p ↦ inl (inl p)
    | inr c ↦ inr c
  ]
  record_of (r ∷ rs) d (inr h) = elim (record_of rs d h) [ inl p ↦ inl (inr p) | inr c ↦ inr c ]

  accepted :
      (p : InclusionProof) (d root : Bytes)
      → verify H p d root ≡ true
      → verify_inclusion H p.leaf_index p.tree_size (leaf_hash H d) p.audit_path ≡ root
  unfolding verify
  accepted p d root e = bytes_eq→eq _ root (ground arith)

  pub root_of_tree :
      (t : Tree) (xs : List Bytes) (root : Bytes)
      → leaves t ≡ xs
      → IsShaped t
      → compute_root H xs ≡ ok root
      → root ≡ hash H t
  root_of_tree t xs root e s c =
      let r : compute_root H xs ≡ ok (hash H t) =
        subst (λ ys. compute_root H ys ≡ ok (hash H t)) e (compute_root-eq H t s) in
      cc

  pub compute_root-nonempty :
      (xs : List Bytes) (root : Bytes) → compute_root H xs ≡ ok root → 1 ≤ length xs
  compute_root-nonempty [] root e = unfold compute_root_fuel in absurd (cc)
  compute_root-nonempty (x ∷ xs) root e = omega arith

  walked : (n i : ℕ) (t : Tree) → IsShaped t → n ≡ size t → directions n i n ≡ turns i t
  walked n i t s e = rw e (directions-eq (size t) i t s (omega arith))

  module _ (digest : IsDigest H) (rs : List Bytes) (root : Bytes) where
    -- Against the abstract tree over the records.
    tree_sound :
        (t : Tree) (p : InclusionProof) (d : Bytes)
        → leaves t ≡ hashed H rs
        → p.leaf_index < size t
        → length p.audit_path ≡ length (turns p.leaf_index t)
        → climb H (reverse (turns p.leaf_index t)) p.audit_path (leaf_hash H d) ≡ hash H t
        → (get_elem? rs p.leaf_index ≡ some d) ⊎ Collision H
    tree_sound t p d e lt full top =
        let wide =
          subst (All IsWide) (sym e)
            (hashed-IsWide H digest (hashed H rs) (hashed-IsLeafHash H rs)) in
        let leaf_wide = leaf_hash-IsWide H digest d in
        elim (climb_sound H digest p.leaf_index t p.audit_path _ wide leaf_wide lt full top) [
          | inl found ↦ record_at rs p.leaf_index d (rw e at found)
          | inr c ↦ inr c
        ]

    -- An accepted proof whose path has one sibling for each level on the way to its index, for a
    -- tree of the log's size and an index in range, is for the record at that index, unless two
    -- inputs of the hash function with one digest are found.
    pub verify_sound :
        (p : InclusionProof) (d : Bytes)
        → compute_root H (hashed H rs) ≡ ok root
        → p.tree_size ≡ length rs
        → p.leaf_index < p.tree_size
        → length p.audit_path ≡ length (directions p.tree_size p.leaf_index p.tree_size)
        → verify H p d root ≡ true
        → (get_elem? rs p.leaf_index ≡ some d) ⊎ Collision H
    unfolding verify_inclusion
    verify_sound p d c n lt full v =
        let (t, e, s) = build (hashed H rs) (compute_root-nonempty (hashed H rs) root c) in
        let sz : p.tree_size ≡ size t =
          n ∙ sym (length-hashed H rs) ∙ ap length (sym e) ∙ length-leaves t in
        let w = walked p.tree_size p.leaf_index t s sz in
        let top = accepted p d root v ∙ root_of_tree t (hashed H rs) root e s c in
        tree_sound t p d e (rw sz at lt) (rw w at full) (rw w at top)

    -- Whatever the index, the size and the audit path of an accepted proof: the content that it was
    -- accepted for is one of the records of the log with that root, unless two inputs of the hash
    -- function with one digest are found.
    pub verify-member :
        (p : InclusionProof) (d : Bytes)
        → compute_root H (hashed H rs) ≡ ok root
        → verify H p d root ≡ true
        → Contains d rs ⊎ Collision H
    unfolding verify_inclusion
    verify-member p d c v =
        let (t, e, s) = build (hashed H rs) (compute_root-nonempty (hashed H rs) root c) in
        let ds = reverse (directions p.tree_size p.leaf_index p.tree_size) in
        let top = accepted p d root v ∙ root_of_tree t (hashed H rs) root e s c in
        let all = subst (All (IsLeafHash H)) (sym e) (hashed-IsLeafHash H rs) in
        elim (climb-member H digest ds p.audit_path t d all top) [
          | inl found ↦ record_of rs d (rw e at found)
          | inr c' ↦ inr c'
        ]

  -- The check does not compare the path's length with the depth: in every log of three records a
  -- proof for index 1 with a path of one sibling is accepted for the record at index 2.
  pub verify-short_path :
      (a b c root : Bytes)
      → compute_root H (hashed H (a ∷ b ∷ c ∷ [])) ≡ ok root
      → verify H
          (record {
            leaf_index = 1;
            tree_size = 3;
            audit_path = internal_hash H (leaf_hash H a) (leaf_hash H b) ∷ [];
            root_hash = root;
          })
          c
          root
        ≡ true
  unfolding compute_root_fuel verify verify_inclusion largest_pow2_below
  verify-short_path a b c root e = ground arith
