-- ===== src/Merkle/Prefix.antt =====
-- The tree over the first leaves of a tree, and the RFC 6962 consistency proof between the two.
use suwappu_lattice_protocol.Prelude.{
  ℕ, zero, suc, ◌+◌, ◌-◌, ◌≤◌, ◌<◌, ◌≡◌, refl, sym, ap, ◌∙◌, Bool, true, false, ◌⊎◌, inl, inr, List,
  [], ◌∷◌, ◌++◌, length, take, take_all, take-append_left, take-append_right, leb, leb-cases, ◌==◌,
  ==-cases, if◌then◌else◌, Bytes, ok, arith,
}
use suwappu_lattice_protocol.Merkle.Split.{IsSplit-smaller}
use suwappu_lattice_protocol.Merkle.Functions.{subproof_fuel}
use suwappu_lattice_protocol.Merkle.Shape.{
  Tree, leaf, fork, leaves, size, hash, IsShaped, length-leaves, size-pos, split_of_fork,
  length-fork, take-fork, drop-fork,
}
use suwappu_lattice_protocol.Merkle.Root.{compute_root-eq}

abbrev pub first : ℕ → Tree → Tree
first m (leaf x) = leaf x
first m (fork l r) =
    if m == (size l + size r)
    then fork l r
    else if leb m (size l)
    then first m l
    else fork l (first (m - size l) r)

abbrev pub proof : (Bytes → Bytes) → ℕ → Tree → Bool → List Bytes
proof H m (leaf x) start = if start then [] else x ∷ []
proof H m (fork l r) start =
    if m == (size l + size r)
    then (if start then [] else hash H (fork l r) ∷ [])
    else if leb m (size l)
    then proof H m l start ++ (hash H r ∷ [])
    else proof H (m - size l) r false ++ (hash H l ∷ [])

-- The three cases of an old size in a fork, with the values of the tests.
abbrev Whole : ℕ → ℕ → ℕ → Type 0
Whole m a b = (m ≡ a + b) × ((m == (a + b)) ≡ true)

abbrev Inside : ℕ → ℕ → ℕ → Type 0
Inside m a b = (m ≤ a) × ((m == (a + b)) ≡ false) × (leb m a ≡ true)

abbrev Spanning : ℕ → ℕ → ℕ → Type 0
Spanning m a b = (a < m) × ((m == (a + b)) ≡ false) × (leb m a ≡ false)

pub fork-cases : (m a b : ℕ) → 1 ≤ b → Whole m a b ⊎ (Inside m a b ⊎ Spanning m a b)
fork-cases m a b h = elim (==-cases m (a + b)) [
  | inl (e, t) ↦ inl (e, t)
  | inr (n, t) ↦ elim (leb-cases m a) [
    | inl (le, u) ↦ inr (inl (le, t, u))
    | inr (lt, u) ↦ inr (inr (lt, t, u))
  ]
]

pub size-first : (m : ℕ) (t : Tree) → 1 ≤ m → m ≤ size t → size (first m t) ≡ m
size-first m (leaf x) pos le = omega arith
size-first m (fork l r) pos le = elim (fork-cases m (size l) (size r) (size-pos r)) [
  | inl (e, t) ↦ rw t (sym e)
  | inr (inl (i, t, u)) ↦ rw (t, u) (size-first m l pos i)
  | inr (inr (s, t, u)) ↦
      rw (t, u) (omega (arith, size-first (m - size l) r (omega arith) (omega arith)))
]

pub leaves-first : (m : ℕ) (t : Tree) → 1 ≤ m → m ≤ size t → leaves (first m t) ≡ take m (leaves t)
leaves-first zero t pos le = absurd (omega arith)
leaves-first (suc zero) (leaf x) pos le = refl
leaves-first (suc (suc m)) (leaf x) pos le = absurd (omega arith)
leaves-first (suc m) (fork l r) pos le = elim (fork-cases (suc m) (size l) (size r) (size-pos r)) [
  | inl (e, t) ↦ rw (t, e, ← length-fork l r) (sym (take_all (leaves l ++ leaves r)))
  | inr (inl (i, t, u)) ↦
      rw (t, u)
        (leaves-first (suc m) l pos i
          ∙ sym (take-append_left (suc m) (leaves l) (leaves r) (omega (arith, length-leaves l))))
  | inr (inr (s, t, u)) ↦
      let k = suc m - size l in
      let e : suc m ≡ length (leaves l) + k = omega (arith, length-leaves l) in
      rw (t, u)
        (ap (◌++◌ (leaves l)) (leaves-first k r (omega arith) (omega arith))
          ∙ sym (take-append_right k (leaves l) (leaves r))
          ∙ ap (λ j. take j (leaves l ++ leaves r)) (sym e))
]

pub first-IsShaped : (m : ℕ) (t : Tree) → 1 ≤ m → m ≤ size t → IsShaped t → IsShaped (first m t)
first-IsShaped m (leaf x) pos le s = tt
first-IsShaped m (fork l r) pos le s = elim (fork-cases m (size l) (size r) (size-pos r)) [
  | inl (e, t) ↦ rw t s
  | inr (inl (i, t, u)) ↦ rw (t, u) (first-IsShaped m l pos i s.0)
  | inr (inr (j, t, u)) ↦
      let k = m - size l in
      let z : size (first k r) ≡ k = size-first k r (omega arith) (omega arith) in
      let q : size l + k ≡ m = omega arith in
      rw (t, u)
        (
          s.0,
          first-IsShaped k r (omega arith) (omega arith) s.1,
          rw (z, q) (IsSplit-smaller j le s.2),
        )
]

module _ (H : Bytes → Bytes) where
  -- `_subproof` computes that proof.
  pub subproof-eq :
      (f m : ℕ) (t : Tree) (start : Bool)
      → IsShaped t
      → size t ≤ f
      → 1 ≤ m
      → m ≤ size t
      → subproof_fuel H f m (leaves t) start ≡ ok (proof H m t start)
  unfolding subproof_fuel
  subproof-eq zero m t start s h pos le = absurd (omega (arith, size-pos t))
  subproof-eq (suc f) m (leaf x) start s h pos le =
      let e : m ≡ 1 = omega arith in rw (e, compute_root-eq H (leaf x) tt) (ground arith)
  subproof-eq (suc f) m (fork l r) start s h pos le =
      rw
        (
          compute_root-eq H (fork l r) s,
          length-fork l r,
          split_of_fork l r s,
          take-fork l r,
          drop-fork l r,
          compute_root-eq H l s.0,
          compute_root-eq H r s.1,
        )
        (elim (fork-cases m (size l) (size r) (size-pos r)) [
          | inl (e, t) ↦ rw t (ground arith)
          | inr (inl (i, t, u)) ↦
              rw (t, u, subproof-eq f m l start s.0 (omega (arith, size-pos r)) pos i)
          | inr (inr (j, t, u)) ↦ rw (
            t,
            u,
            subproof-eq f (m - size l) r false s.1 (omega (arith, size-pos l)) (omega arith)
                (omega arith),
          )
        ])
