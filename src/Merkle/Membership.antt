-- ===== src/Merkle/Membership.antt =====
-- A proof with any audit path, also a shortened one, to the root of a tree over hashed records:
-- the content that it was accepted for is one of the records.
use suwappu_lattice_protocol.Prelude.{
  ◌≡◌, refl, sym, ◌∙◌, Bool, true, false, ◌⊎◌, inl, inr, List, [], ◌∷◌, ◌++◌, length, if◌then◌else◌,
  Bytes, All, All-append_left, All-append_right,
}
use suwappu_lattice_protocol.Merkle.Functions.{internal_hash, leaf_hash, climb}
use suwappu_lattice_protocol.Merkle.Shape.{Tree, leaf, fork, leaves, hash}
use suwappu_lattice_protocol.Merkle.Collision.{
  Collision, IsDigest, leaf-ne-internal, internal_hash-inj_left, internal_hash-inj_right,
}
use suwappu_lattice_protocol.Merkle.Soundness.{IsWide, hash-IsWide}

-- The content of a record is in the list.
abbrev pub Contains : Bytes → List Bytes → Type 0
Contains d [] = ⊥
Contains d (r ∷ rs) = (r ≡ d) ⊎ Contains d rs

Contains-append_left : (d : Bytes) (xs ys : List Bytes) → Contains d xs → Contains d (xs ++ ys)
Contains-append_left d [] ys h = absurd h
Contains-append_left d (x ∷ xs) ys (inl h) = inl h
Contains-append_left d (x ∷ xs) ys (inr h) = inr (Contains-append_left d xs ys h)

Contains-append_right : (d : Bytes) (xs ys : List Bytes) → Contains d ys → Contains d (xs ++ ys)
Contains-append_right d [] ys h = h
Contains-append_right d (x ∷ xs) ys h = inr (Contains-append_right d xs ys h)

-- The loop of `_verify_inclusion`, read from the root: one pair of direction and sibling for each
-- round, the last round first.
abbrev Round : Type 0
Round = Bool × Bytes

module _ (H : Bytes → Bytes) where
  up : List Round → Bytes → Bytes
  up [] node = node
  up ((d, s) ∷ rounds) node =
      let below = up rounds node in if d then internal_hash H below s else internal_hash H s below

  up-append :
      (rounds : List Round) (d : Bool) (s node : Bytes)
      → up (rounds ++ ((d, s) ∷ [])) node
        ≡ up rounds (if d then internal_hash H node s else internal_hash H s node)
  unfolding up
  up-append [] d s node = refl
  up-append ((d', s') ∷ rounds) d s node = rw (up-append rounds d s node)

  -- Every run of the loop is some rounds.
  climb-rounds :
      (ds : List Bool) (p : List Bytes)
      → (rounds : List Round) × ((node : Bytes) → climb H ds p node ≡ up rounds node)
  unfolding climb up
  climb-rounds [] p = ([], λ node. refl)
  climb-rounds (d ∷ ds) [] = ([], λ node. refl)
  climb-rounds (d ∷ ds) (s ∷ p) =
      let (rounds, e) = climb-rounds ds p in
      (rounds ++ ((d, s) ∷ []), λ node. e _ ∙ sym (up-append rounds d s node))

  abbrev pub IsLeafHash : Bytes → Type 0
  IsLeafHash x = (d : Bytes) × (x ≡ leaf_hash H d)

  module _ (digest : IsDigest H) where
    pub leaf_hash-IsWide : (d : Bytes) → IsWide (leaf_hash H d)
    unfolding leaf_hash
    leaf_hash-IsWide d = digest.width _

    pub hashed-IsWide : (xs : List Bytes) → All IsLeafHash xs → All IsWide xs
    hashed-IsWide [] h = tt
    hashed-IsWide (x ∷ xs) ((d, e), h) = (rw e (leaf_hash-IsWide d), hashed-IsWide xs h)

    up-IsWide : (rounds : List Round) (d : Bytes) → IsWide (up rounds (leaf_hash H d))
    unfolding up internal_hash
    up-IsWide [] d = leaf_hash-IsWide d
    up-IsWide ((true, s) ∷ rounds) d = digest.width _
    up-IsWide ((false, s) ∷ rounds) d = digest.width _

    -- From the root down, every round stays inside the tree; the walk ends at a leaf.
    up_sound :
        (rounds : List Round) (t : Tree) (d : Bytes)
        → All IsLeafHash (leaves t)
        → up rounds (leaf_hash H d) ≡ hash H t
        → Contains (leaf_hash H d) (leaves t) ⊎ Collision H
    unfolding up
    up_sound [] (leaf x) d h e = inl (inl (sym e))
    up_sound [] (fork l r) d h e = inr (leaf-ne-internal H d (hash H l) (hash H r) e)
    up_sound ((true, s) ∷ rounds) (leaf x) d ((d', e'), h) e =
        inr (leaf-ne-internal H d' (up rounds (leaf_hash H d)) s (sym e' ∙ sym e))
    up_sound ((false, s) ∷ rounds) (leaf x) d ((d', e'), h) e =
        inr (leaf-ne-internal H d' s (up rounds (leaf_hash H d)) (sym e' ∙ sym e))
    up_sound ((true, s) ∷ rounds) (fork l r) d h e =
        let hl = All-append_left IsLeafHash (leaves l) (leaves r) h in
        let sub = up rounds (leaf_hash H d) in
        let widths : length sub ≡ length (hash H l) =
          up-IsWide rounds d ∙ sym (hash-IsWide H digest l (hashed-IsWide (leaves l) hl)) in
        elim (internal_hash-inj_left H sub s (hash H l) (hash H r) widths e) [
          | inl (same, _) ↦ elim (up_sound rounds l d hl same) [
            | inl found ↦ inl (Contains-append_left _ (leaves l) (leaves r) found)
            | inr c ↦ inr c
          ]
          | inr c ↦ inr c
        ]
    up_sound ((false, s) ∷ rounds) (fork l r) d h e =
        let hr = All-append_right IsLeafHash (leaves l) (leaves r) h in
        let sub = up rounds (leaf_hash H d) in
        let widths : length sub ≡ length (hash H r) =
          up-IsWide rounds d ∙ sym (hash-IsWide H digest r (hashed-IsWide (leaves r) hr)) in
        elim (internal_hash-inj_right H s sub (hash H l) (hash H r) widths e) [
          | inl (_, same) ↦ elim (up_sound rounds r d hr same) [
            | inl found ↦ inl (Contains-append_right _ (leaves l) (leaves r) found)
            | inr c ↦ inr c
          ]
          | inr c ↦ inr c
        ]

    pub climb-member :
        (ds : List Bool) (p : List Bytes) (t : Tree) (d : Bytes)
        → All IsLeafHash (leaves t)
        → climb H ds p (leaf_hash H d) ≡ hash H t
        → Contains (leaf_hash H d) (leaves t) ⊎ Collision H
    climb-member ds p t d h e =
        let (rounds, q) = climb-rounds ds p in up_sound rounds t d h (sym (q (leaf_hash H d)) ∙ e)
