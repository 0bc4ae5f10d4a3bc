-- ===== src/Merkle/Inclusion.antt =====
-- `_audit_path` and `_verify_inclusion` of tree.py: an audit path leads back to the root.
use mathlib.Core.List.{reverse-cons}
use native.Mathlib.Nat.{add-sub_cancel_left}
use suwappu_lattice_protocol.Prelude.{
  ℕ, zero, suc, ◌-◌, ◌≤◌, ◌≡◌, refl, sym, ◌∙◌, Bool, true, false, inl, inr, some, List, [], ◌∷◌,
  ◌++◌, reverse, length, get_elem?, ltb, ltb-cases, if◌then◌else◌, Bytes, ok, arith, length-append,
  length-reverse,
}
use suwappu_lattice_protocol.Merkle.Functions.{directions, audit_path_fuel, climb, verify_inclusion}
use suwappu_lattice_protocol.Merkle.Shape.{
  Tree, leaf, fork, leaves, size, hash, IsShaped, size-pos, split_of_fork, length-fork, take-fork,
  drop-fork, one-lt-fork, fork-ne-one, get_elem?-fork_left, get_elem?-fork_right,
}
use suwappu_lattice_protocol.Merkle.Root.{compute_root-eq}

-- The way from the root to leaf `i`, and the siblings on it from the leaf up.
abbrev pub turns : ℕ → Tree → List Bool
turns i (leaf x) = []
turns i (fork l r) = if ltb i (size l) then true ∷ turns i l else false ∷ turns (i - size l) r

abbrev pub siblings : (Bytes → Bytes) → ℕ → Tree → List Bytes
siblings H i (leaf x) = []
siblings H i (fork l r) =
    if ltb i (size l)
    then siblings H i l ++ (hash H r ∷ [])
    else siblings H (i - size l) r ++ (hash H l ∷ [])

pub directions-eq :
    (f i : ℕ) (t : Tree) → IsShaped t → size t ≤ f → directions f i (size t) ≡ turns i t
unfolding directions
directions-eq zero i t s h = absurd (omega (arith, size-pos t))
directions-eq (suc f) i (leaf x) s h = refl
directions-eq (suc f) i (fork l r) s h = elim (ltb-cases i (size l)) [
  | inl (_, e) ↦
      rw (
        one-lt-fork l r,
        split_of_fork l r s,
        e,
        directions-eq f i l s.0 (omega (arith, size-pos r)),
      )
  | inr (_, e) ↦ rw (
    one-lt-fork l r,
    split_of_fork l r s,
    e,
    add-sub_cancel_left,
    directions-eq f (i - size l) r s.1 (omega (arith, size-pos l)),
  )
]

pub length-siblings :
    (H : Bytes → Bytes) (i : ℕ) (t : Tree) → length (siblings H i t) ≡ length (turns i t)
length-siblings H i (leaf x) = refl
length-siblings H i (fork l r) = elim (ltb-cases i (size l)) [
  | inl (_, e) ↦ rw (e, length-append) (omega (arith, length-siblings H i l))
  | inr (_, e) ↦ rw (e, length-append) (omega (arith, length-siblings H (i - size l) r))
]

pub length-siblings-reverse :
    (H : Bytes → Bytes) (i : ℕ) (t : Tree) → length (siblings H i t) ≡ length (reverse (turns i t))
length-siblings-reverse H i t = length-siblings H i t ∙ sym (length-reverse (turns i t))

module _ (H : Bytes → Bytes) where
  pub audit_path-eq :
      (f i : ℕ) (t : Tree)
      → IsShaped t
      → size t ≤ f
      → audit_path_fuel H f i (leaves t) ≡ ok (siblings H i t)
  unfolding audit_path_fuel
  audit_path-eq zero i t s h = absurd (omega (arith, size-pos t))
  audit_path-eq (suc f) i (leaf x) s h = refl
  audit_path-eq (suc f) i (fork l r) s h =
      rw
        (
          length-fork l r,
          split_of_fork l r s,
          take-fork l r,
          drop-fork l r,
          compute_root-eq H l s.0,
          compute_root-eq H r s.1,
          fork-ne-one l r,
          audit_path-eq f i l s.0 (omega (arith, size-pos r)),
          audit_path-eq f (i - size l) r s.1 (omega (arith, size-pos l)),
        )
        (ground arith)

  pub climb-append :
      (ds es : List Bool) (p q : List Bytes) (node : Bytes)
      → length p ≡ length ds
      → climb H (ds ++ es) (p ++ q) node ≡ climb H es q (climb H ds p node)
  unfolding climb
  climb-append [] es [] q node h = refl
  climb-append [] es (x ∷ p) q node h = absurd (omega arith)
  climb-append (d ∷ ds) es [] q node h = absurd (omega arith)
  climb-append (d ∷ ds) es (x ∷ p) q node h = climb-append ds es p q _ (omega arith)

  pub climb-siblings :
      (i : ℕ) (t : Tree) (x : Bytes)
      → get_elem? (leaves t) i ≡ some x
      → climb H (reverse (turns i t)) (siblings H i t) x ≡ hash H t
  unfolding climb
  climb-siblings zero (leaf y) x h = ground arith
  climb-siblings (suc i) (leaf y) x h = cc
  climb-siblings i (fork l r) x h = elim (ltb-cases i (size l)) [
    | inl (lt, e) ↦
        rw
          (
            e,
            reverse-cons,
            climb-append (reverse (turns i l)) (true ∷ []) (siblings H i l) (hash H r ∷ []) x
                (length-siblings-reverse H i l),
            climb-siblings i l x (sym (get_elem?-fork_left l r i lt) ∙ h),
          )
          refl
    | inr (le, e) ↦
        let j = i - size l in
        rw
          (
            e,
            reverse-cons,
            climb-append (reverse (turns j r)) (false ∷ []) (siblings H j r) (hash H l ∷ []) x
                (length-siblings-reverse H j r),
            climb-siblings j r x (sym (get_elem?-fork_right l r i le) ∙ h),
          )
          refl
  ]

  -- The path that `_audit_path` gives for a leaf leads `_verify_inclusion` to the root.
  pub verify_inclusion-siblings :
      (i : ℕ) (t : Tree) (x : Bytes)
      → IsShaped t
      → get_elem? (leaves t) i ≡ some x
      → verify_inclusion H i (size t) x (siblings H i t) ≡ hash H t
  unfolding verify_inclusion
  verify_inclusion-siblings i t x s h =
      rw (directions-eq (size t) i t s (omega arith)) (climb-siblings i t x h)
