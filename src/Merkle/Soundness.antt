-- ===== src/Merkle/Soundness.antt =====
-- What an accepted inclusion proof proves, for arbitrary (forged) audit paths.
use mathlib.Core.List.{reverse-cons}
use suwappu_lattice_protocol.Prelude.{
  ℕ, zero, suc, ◌-◌, ◌<◌, ◌≡◌, refl, sym, ap, ◌∙◌, Bool, true, false, ◌⊎◌, inl, inr, some, List, [],
  ◌∷◌, ◌++◌, reverse, length, get_elem?, ltb-cases, if◌then◌else◌, Bytes, arith, length-reverse,
  All, All-append_left, All-append_right,
}
use suwappu_lattice_protocol.Merkle.Functions.{internal_hash, climb}
use suwappu_lattice_protocol.Merkle.Shape.{
  Tree, leaf, fork, leaves, size, hash, get_elem?-fork_left, get_elem?-fork_right,
}
use suwappu_lattice_protocol.Merkle.Inclusion.{turns, climb-append}
use suwappu_lattice_protocol.Merkle.Collision.{
  Collision, IsDigest, internal_hash-inj_left, internal_hash-inj_right,
}

-- The last sibling of a path, and the path before it.
snoc-cases :
    (n : ℕ) (p : List Bytes)
    → length p ≡ suc n
    → (q : List Bytes) × (s : Bytes) × (p ≡ q ++ (s ∷ [])) × (length q ≡ n)
snoc-cases n [] h = absurd (omega arith)
snoc-cases zero (x ∷ []) h = ([], x, refl, refl)
snoc-cases zero (x ∷ y ∷ p) h = absurd (omega arith)
snoc-cases (suc n) (x ∷ p) h =
    let (q, s, e, l) = snoc-cases n p (omega arith) in (x ∷ q, s, ap (◌∷◌ x) e, ap suc l)

abbrev pub IsWide : Bytes → Type 0
IsWide x = length x ≡ 32

module _ (H : Bytes → Bytes) (digest : IsDigest H) where
  pub hash-IsWide : (t : Tree) → All IsWide (leaves t) → IsWide (hash H t)
  unfolding internal_hash
  hash-IsWide (leaf x) w = w.0
  hash-IsWide (fork l r) w = digest.width _

  climb-IsWide :
      (ds : List Bool) (p : List Bytes) (node : Bytes) → IsWide node → IsWide (climb H ds p node)
  unfolding climb internal_hash
  climb-IsWide [] p node w = w
  climb-IsWide (d ∷ ds) [] node w = w
  climb-IsWide (true ∷ ds) (s ∷ p) node w = climb-IsWide ds p _ (digest.width _)
  climb-IsWide (false ∷ ds) (s ∷ p) node w = climb-IsWide ds p _ (digest.width _)

  -- The last round of the loop: the sibling below the root.
  climb-last :
      (d : Bool) (ds : List Bool) (p : List Bytes) (node : Bytes)
      → length p ≡ suc (length ds)
      → (q : List Bytes) × (s : Bytes) × (length q ≡ length ds)
        × (climb H (reverse (d ∷ ds)) p node ≡ (
            if d
            then internal_hash H (climb H (reverse ds) q node) s
            else internal_hash H s (climb H (reverse ds) q node)))
  unfolding climb
  climb-last d ds p node h =
      let (q, s, e, l) = snoc-cases (length ds) p h in
      (
        q,
        s,
        l,
        rw
            (
              e,
              reverse-cons,
              climb-append H (reverse ds) (d ∷ []) q (s ∷ []) node (l ∙ sym (length-reverse ds)),
            )
            refl,
      )

  -- A path of full length to the root of a tree starts at the leaf of its index.
  pub climb_sound :
      (i : ℕ) (t : Tree) (p : List Bytes) (node : Bytes)
      → All IsWide (leaves t)
      → IsWide node
      → i < size t
      → length p ≡ length (turns i t)
      → climb H (reverse (turns i t)) p node ≡ hash H t
      → (get_elem? (leaves t) i ≡ some node) ⊎ Collision H
  climb_sound zero (leaf x) p node w wn lt h e = inl (unfold climb in ap some (sym e))
  climb_sound (suc i) (leaf x) p node w wn lt h e = absurd (omega arith)
  climb_sound i (fork l r) p node w wn lt h e = elim (ltb-cases i (size l)) [
    | inl (less, t) ↦
        let wl = All-append_left IsWide (leaves l) (leaves r) w in
        let (q, s, lq, top) = climb-last true (turns i l) p node (rw t at h) in
        let sub = climb H (reverse (turns i l)) q node in
        let roots : internal_hash H sub s ≡ hash H (fork l r) = sym top ∙ (rw t at e) in
        let widths : length sub ≡ length (hash H l) =
          climb-IsWide (reverse (turns i l)) q node wn ∙ sym (hash-IsWide l wl) in
        elim (internal_hash-inj_left H sub s (hash H l) (hash H r) widths roots) [
          | inl (same, _) ↦
              rw (get_elem?-fork_left l r i less) (climb_sound i l q node wl wn less lq same)
          | inr c ↦ inr c
        ]
    | inr (le, t) ↦
        let j = i - size l in
        let wr = All-append_right IsWide (leaves l) (leaves r) w in
        let (q, s, lq, top) = climb-last false (turns j r) p node (rw t at h) in
        let sub = climb H (reverse (turns j r)) q node in
        let roots : internal_hash H s sub ≡ hash H (fork l r) = sym top ∙ (rw t at e) in
        let widths : length sub ≡ length (hash H r) =
          climb-IsWide (reverse (turns j r)) q node wn ∙ sym (hash-IsWide r wr) in
        elim (internal_hash-inj_right H s sub (hash H l) (hash H r) widths roots) [
          | inl (_, same) ↦
              rw (get_elem?-fork_right l r i le)
                (climb_sound j r q node wr wn (omega arith) lq same)
          | inr c ↦ inr c
        ]
  ]
