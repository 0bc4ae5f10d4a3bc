-- ===== src/Merkle/Functions.antt =====
-- tree.py (src/ltp/merkle_log/tree.py): the hash prefixes and the recursive functions on leaf
-- lists. `H` is `canonical_hash_bytes`, whose hash function is a library's.
-- Python's recursion is on fuel; running out of it is Python's RecursionError.
use suwappu_lattice_protocol.Prelude.{
  ℕ, zero, suc, ◌+◌, ◌-◌, ◌*◌, Bool, true, false, Option, none, some, List, [], ◌∷◌, ◌++◌, reverse,
  length, take, drop, ltb, leb, ◌==◌, if◌then◌else◌, ◌&&◌, ◌||◌, Bytes, bytes_eq, Result, ok, raise,
  assertion_error, recursion_error, ◌>>=◌,
}

-- `while k * 2 < n: k *= 2`; every round doubles `k`, so `n` rounds are enough.
unfoldable pub grow : ℕ → ℕ → ℕ → ℕ
grow zero n k = k
grow (suc f) n k = let rest = grow f n (k * 2) in if ltb (k * 2) n then rest else k

unfoldable pub largest_pow2_below : ℕ → ℕ
unfolding grow
largest_pow2_below n = grow n n 1

-- The walk from the root to the leaf: `true` where it goes left.
unfoldable pub directions : ℕ → ℕ → ℕ → List Bool
unfolding largest_pow2_below
directions zero i n = []
directions (suc f) i n =
    let k = largest_pow2_below n in
    let rest = directions f (if ltb i k then i else i - k) (if ltb i k then k else n - k) in
    if ltb 1 n then ltb i k ∷ rest else []

-- `path + [node]`, after the two calls that compute them
abbrev pub append_node : Result (List Bytes) → Result Bytes → Result (List Bytes)
append_node path node = do p ← path; x ← node; ok (p ++ (x ∷ []))

module _ (H : Bytes → Bytes) where
  unfoldable pub leaf_hash : Bytes → Bytes
  leaf_hash content = H (0 ∷ content)

  unfoldable pub internal_hash : Bytes → Bytes → Bytes
  internal_hash left right = H (1 ∷ (left ++ right))

  -- `_compute_root`, with the fuel of the recursion
  unfoldable pub compute_root_fuel : ℕ → List Bytes → Result Bytes
  compute_root_fuel zero leaves = raise recursion_error
  compute_root_fuel (suc f) [] = raise assertion_error
  compute_root_fuel (suc f) (x ∷ []) = ok x
  compute_root_fuel (suc f) (x ∷ y ∷ rest) = do
    let leaves = x ∷ y ∷ rest
    let k = largest_pow2_below (length leaves)
    left ← compute_root_fuel f (take k leaves)
    right ← compute_root_fuel f (drop k leaves)
    ok (internal_hash left right)

  abbrev pub compute_root : List Bytes → Result Bytes
  compute_root leaves = compute_root_fuel (suc (length leaves)) leaves

  -- `_audit_path`
  unfoldable pub audit_path_fuel : ℕ → ℕ → List Bytes → Result (List Bytes)
  audit_path_fuel zero index leaves = raise recursion_error
  audit_path_fuel (suc f) index leaves =
      let k = largest_pow2_below (length leaves) in
      let in_left =
        append_node (audit_path_fuel f index (take k leaves)) (compute_root (drop k leaves)) in
      let in_right =
        append_node (audit_path_fuel f (index - k) (drop k leaves))
          (compute_root (take k leaves)) in
      if length leaves == 1 then ok [] else if ltb index k then in_left else in_right

  -- The loop over `zip(reversed(going_left), audit_path)`.
  unfoldable pub climb : List Bool → List Bytes → Bytes → Bytes
  climb [] path node = node
  climb (went_left ∷ ds) [] node = node
  climb (went_left ∷ ds) (sibling ∷ path) node =
      climb ds path (if went_left then internal_hash node sibling else internal_hash sibling node)

  -- `_verify_inclusion`
  unfoldable pub verify_inclusion : ℕ → ℕ → Bytes → List Bytes → Bytes
  unfolding directions climb
  verify_inclusion index tree_size leaf path =
      climb (reverse (directions tree_size index tree_size)) path leaf

  -- `_subproof`
  unfoldable pub subproof_fuel : ℕ → ℕ → List Bytes → Bool → Result (List Bytes)
  subproof_fuel zero m leaves start = raise recursion_error
  subproof_fuel (suc f) m leaves start =
      let k = largest_pow2_below (length leaves) in
      let in_left =
        append_node (subproof_fuel f m (take k leaves) start) (compute_root (drop k leaves)) in
      let spanning =
        append_node (subproof_fuel f (m - k) (drop k leaves) false)
          (compute_root (take k leaves)) in
      if m == length leaves
      then (if start then ok [] else append_node (ok []) (compute_root leaves))
      else if leb m k
      then in_left
      else spanning

-- What `_verify` returns, beside what `proof_iter` has left and the `consumed` counter.
pub record Rebuilt : Type 0 where
  pub old_hash : Bytes
  pub new_hash : Bytes
  pub unread : List Bytes
  pub consumed : ℕ

-- The case `m == n` of `_verify`.
unfoldable pub known_subtree : Bytes → Bool → List Bytes → ℕ → Option Rebuilt
known_subtree old_root true proof consumed =
    some (record { old_hash = old_root; new_hash = old_root; unread = proof; consumed = consumed })
known_subtree old_root false [] consumed = none
known_subtree old_root false (node ∷ proof) consumed =
    some (record { old_hash = node; new_hash = node; unread = proof; consumed = consumed + 1 })

-- The three tests at the end of `verify_consistency`.
unfoldable pub roots_match : Bytes → Bytes → List Bytes → Option Rebuilt → Bool
roots_match old_root new_root proof none = false
roots_match old_root new_root proof (some r) =
    bytes_eq r.old_hash old_root && (bytes_eq r.new_hash new_root && (r.consumed == length proof))

module _ (H : Bytes → Bytes) where
  -- The `next(proof_iter, None)` after each recursive call, and what is built from the node.
  unfoldable pub right_node : Rebuilt → List Bytes → Option Rebuilt
  right_node r [] = none
  right_node r (sibling ∷ unread) = some (record {
    old_hash = r.old_hash;
    new_hash = internal_hash H r.new_hash sibling;
    unread = unread;
    consumed = r.consumed + 1;
  })

  unfoldable pub left_node : Rebuilt → List Bytes → Option Rebuilt
  left_node r [] = none
  left_node r (sibling ∷ unread) = some (record {
    old_hash = internal_hash H sibling r.old_hash;
    new_hash = internal_hash H sibling r.new_hash;
    unread = unread;
    consumed = r.consumed + 1;
  })

  unfoldable pub add_right_sibling : Option Rebuilt → Option Rebuilt
  unfolding right_node
  add_right_sibling none = none
  add_right_sibling (some r) = right_node r r.unread

  unfoldable pub add_left_sibling : Option Rebuilt → Option Rebuilt
  unfolding left_node
  add_left_sibling none = none
  add_left_sibling (some r) = left_node r r.unread

  -- `_verify`, the function inside `verify_consistency`; `None` is `none`.
  unfoldable pub rebuild : ℕ → Bytes → ℕ → ℕ → Bool → List Bytes → ℕ → Option Rebuilt
  rebuild zero old_root m n start proof consumed = none
  rebuild (suc f) old_root m n start proof consumed =
      let k = largest_pow2_below n in
      let in_left = add_right_sibling (rebuild f old_root m k start proof consumed) in
      let spanning = add_left_sibling (rebuild f old_root (m - k) (n - k) false proof consumed) in
      if m == n
      then known_subtree old_root start proof consumed
      else if leb m k
      then in_left
      else spanning

  unfoldable pub verify_consistency : ℕ → ℕ → Bytes → Bytes → List Bytes → Bool
  unfolding rebuild known_subtree add_left_sibling add_right_sibling roots_match
  verify_consistency old_size new_size old_root new_root proof =
      if ltb old_size 1 || ltb new_size old_size
      then false
      else if old_size == new_size
      then bytes_eq old_root new_root && (length proof == 0)
      else roots_match old_root new_root proof
          (rebuild new_size old_root old_size new_size true proof 0)
