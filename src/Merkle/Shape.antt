-- ===== src/Merkle/Shape.antt =====
-- The abstract Merkle tree of RFC 6962 section 2.1: a binary tree whose left subtree holds the
-- largest power of two of leaves strictly below the size. tree.py never builds it; the theorems
-- compare the recursion on leaf lists with it.
use suwappu_lattice_protocol.Prelude.{
  ℕ, zero, suc, ◌+◌, ◌-◌, ◌≤◌, ◌<◌, ◌≡◌, refl, sym, ap, ◌∙◌, List, [], ◌∷◌, ◌++◌, length, take,
  drop, Bytes, true, false, ltb, ◌==◌, arith, length-append, take-append, drop-append,
  take-append-drop, length-take_of_le, length-drop, get_elem?, get_elem?-append_left,
  get_elem?-append_right,
}
use suwappu_lattice_protocol.Merkle.Split.{
  IsSplit, IsSplit-pos, largest_pow2_below-IsSplit, largest_pow2_below-eq,
}
use suwappu_lattice_protocol.Merkle.Functions.{largest_pow2_below, internal_hash}

pub data Tree : Type 0 where
  leaf : Bytes → Tree
  fork : Tree → Tree → Tree

abbrev pub leaves : Tree → List Bytes
leaves (leaf x) = x ∷ []
leaves (fork l r) = leaves l ++ leaves r

abbrev pub size : Tree → ℕ
size (leaf x) = 1
size (fork l r) = size l + size r

abbrev pub hash : (Bytes → Bytes) → Tree → Bytes
hash H (leaf x) = x
hash H (fork l r) = internal_hash H (hash H l) (hash H r)

abbrev pub IsShaped : Tree → Type 0
IsShaped (leaf x) = Unit
IsShaped (fork l r) = IsShaped l × IsShaped r × IsSplit (size l + size r) (size l)

pub length-leaves : (t : Tree) → length (leaves t) ≡ size t
length-leaves (leaf x) = refl
length-leaves (fork l r) =
    omega (arith, length-append {0} (leaves l) (leaves r), length-leaves l, length-leaves r)

pub size-pos : (t : Tree) → 1 ≤ size t
size-pos (leaf x) = omega arith
size-pos (fork l r) = omega (arith, size-pos l)

-- The split of a shaped fork, as the code computes it.
pub split_of_fork :
    (l r : Tree) → IsShaped (fork l r) → largest_pow2_below (size l + size r) ≡ size l
split_of_fork l r h = largest_pow2_below-eq (size-pos l) h.2

pub length-fork : (l r : Tree) → length (leaves l ++ leaves r) ≡ size l + size r
length-fork l r = length-leaves (fork l r)

pub take-fork : (l r : Tree) → take (size l) (leaves l ++ leaves r) ≡ leaves l
take-fork l r = rw (← length-leaves l) (take-append (leaves l) (leaves r))

pub drop-fork : (l r : Tree) → drop (size l) (leaves l ++ leaves r) ≡ leaves r
drop-fork l r = rw (← length-leaves l) (drop-append (leaves l) (leaves r))

build_fuel :
    (n : ℕ) (xs : List Bytes)
    → 1 ≤ length xs
    → length xs ≤ n
    → (t : Tree) × (leaves t ≡ xs) × IsShaped t
build_fuel zero xs h le = absurd (omega arith)
build_fuel (suc n) [] h le = absurd (omega arith)
build_fuel (suc n) (x ∷ []) h le = (leaf x, refl, tt)
build_fuel (suc n) (x ∷ y ∷ xs) h le =
    let all = x ∷ y ∷ xs in
    let k = largest_pow2_below (length all) in
    let s : IsSplit (length all) k = largest_pow2_below-IsSplit (length all) (omega arith) in
    let pos : 1 ≤ k = IsSplit-pos s (omega arith) in
    let tl : length (take k all) ≡ k = length-take_of_le k all (omega (arith, s.below)) in
    let dl : length (drop k all) ≡ length all - k = length-drop k all in
    let (l, el, sl) = build_fuel n (take k all) (omega arith) (omega (arith, s.below)) in
    let (r, er, sr) = build_fuel n (drop k all) (omega (arith, s.below)) (omega arith) in
    let zl : size l ≡ k = sym (length-leaves l) ∙ ap length el ∙ tl in
    let zr : size r ≡ length all - k = sym (length-leaves r) ∙ ap length er ∙ dl in
    let zs : size l + size r ≡ length all = omega (arith, s.below) in
    (fork l r, rw (el, er) (take-append-drop k all), (sl, sr, rw (zs, zl) s))

-- Every list of leaves but the empty one is the leaves of a shaped tree.
pub build : (xs : List Bytes) → 1 ≤ length xs → (t : Tree) × (leaves t ≡ xs) × IsShaped t
build xs h = build_fuel (length xs) xs h (omega arith)

-- The tests on the size of a fork.
pub one-lt-fork : (l r : Tree) → ltb 1 (size l + size r) ≡ true
one-lt-fork l r = ground (arith, size-pos l, size-pos r)

pub fork-ne-one : (l r : Tree) → ((size l + size r) == 1) ≡ false
fork-ne-one l r = ground (arith, size-pos l, size-pos r)

-- The leaf at an index of a fork.
pub get_elem?-fork_left :
    (l r : Tree) (i : ℕ) → i < size l → get_elem? (leaves (fork l r)) i ≡ get_elem? (leaves l) i
get_elem?-fork_left l r i h =
    get_elem?-append_left (leaves l) (leaves r) i (omega (arith, length-leaves l))

pub get_elem?-fork_right :
    (l r : Tree) (i : ℕ)
    → size l ≤ i
    → get_elem? (leaves (fork l r)) i ≡ get_elem? (leaves r) (i - size l)
get_elem?-fork_right l r i h =
    let e : i ≡ length (leaves l) + (i - size l) = omega (arith, length-leaves l) in
    ap (get_elem? (leaves l ++ leaves r)) e
    ∙ get_elem?-append_right (leaves l) (leaves r) (i - size l)
