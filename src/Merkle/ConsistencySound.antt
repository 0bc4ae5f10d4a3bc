-- ===== src/Merkle/ConsistencySound.antt =====
-- What an accepted consistency proof proves, for arbitrary (forged) proof nodes: the old tree's
-- leaves are the first leaves of the new tree.
use mathlib.Core.Path.{ap₂}
use native.Mathlib.Nat.{add-sub_cancel_left}
use suwappu_lattice_protocol.Prelude.{
  ℕ, zero, suc, ◌+◌, ◌-◌, ◌≤◌, ◌<◌, ◌≡◌, ◌≢◌, sym, ap, ◌∙◌, Bool, true, false, ◌⊎◌, inl, inr, some,
  List, [], ◌∷◌, ◌++◌, length, take, take_all, take-append_left, take-append_right, ◌==◌, Bytes,
  arith, All, All-append_left, All-append_right,
}
use suwappu_lattice_protocol.Merkle.Split.{IsSplit-smaller, IsSplit-unique}
use suwappu_lattice_protocol.Merkle.Functions.{internal_hash, Rebuilt, rebuild}
use suwappu_lattice_protocol.Merkle.Shape.{
  Tree, leaf, fork, leaves, size, hash, IsShaped, length-leaves, size-pos, split_of_fork,
}
use suwappu_lattice_protocol.Merkle.Prefix.{fork-cases}
use suwappu_lattice_protocol.Merkle.Collision.{
  Collision, IsDigest, internal_hash-inj_left, internal_hash-inj_right, ◌>>=◌,
}
use suwappu_lattice_protocol.Merkle.Soundness.{IsWide, hash-IsWide}
use suwappu_lattice_protocol.Merkle.Rebuild.{
  known-same, add_right_sibling-inv, add_left_sibling-inv, node_IsWide, span_IsWide,
}

eq_self : (n : ℕ) → (n == n) ≡ true
eq_self n = ground arith

module _ (H : Bytes → Bytes) (digest : IsDigest H) where
  fork-inj :
      (l r l' r' : Tree)
      → All IsWide (leaves (fork l r))
      → All IsWide (leaves (fork l' r'))
      → hash H (fork l r) ≡ hash H (fork l' r')
      → ((hash H l ≡ hash H l') × (hash H r ≡ hash H r')) ⊎ Collision H
  fork-inj l r l' r' w w' e =
      internal_hash-inj_left H (hash H l) (hash H r) (hash H l') (hash H r')
        (hash-IsWide H digest l (All-append_left IsWide (leaves l) (leaves r) w)
          ∙ sym (hash-IsWide H digest l' (All-append_left IsWide (leaves l') (leaves r') w')))
        e

  -- Trees of one size with one root have the same leaves.
  pub same_leaves :
      (t u : Tree)
      → IsShaped t
      → IsShaped u
      → All IsWide (leaves t)
      → All IsWide (leaves u)
      → size t ≡ size u
      → hash H t ≡ hash H u
      → (leaves t ≡ leaves u) ⊎ Collision H
  same_leaves (leaf x) (leaf y) st su wt wu n e = inl (ap (λ z. z ∷ []) e)
  same_leaves (leaf x) (fork l r) st su wt wu n e = absurd (omega (arith, size-pos l, size-pos r))
  same_leaves (fork l r) (leaf y) st su wt wu n e = absurd (omega (arith, size-pos l, size-pos r))
  same_leaves (fork l r) (fork l' r') st su wt wu n e =
      let k : size l ≡ size l' = IsSplit-unique st.2 (rw (← n) at su.2) in
      let wl = All-append_left IsWide (leaves l) (leaves r) wt in
      let wr = All-append_right IsWide (leaves l) (leaves r) wt in
      let wl' = All-append_left IsWide (leaves l') (leaves r') wu in
      let wr' = All-append_right IsWide (leaves l') (leaves r') wu in
      do
        (el, er) ← fork-inj l r l' r' wt wu e
        pl ← same_leaves l l' st.0 su.0 wl wl' k el
        pr ← same_leaves r r' st.1 su.1 wr wr' (omega arith) er
        inl (ap₂ (◌++◌) pl pr)

  whole_sound :
      (m : ℕ) (old t : Tree)
      → IsShaped old
      → IsShaped t
      → All IsWide (leaves old)
      → All IsWide (leaves t)
      → size old ≡ m
      → m ≡ size t
      → hash H old ≡ hash H t
      → (leaves old ≡ take m (leaves t)) ⊎ Collision H
  whole_sound m old t so st wo wt z q e = do
    same ← same_leaves old t so st wo wt (z ∙ q) e
    inl (same ∙ sym (take_all (leaves t)) ∙ ap (λ k. take k (leaves t)) (length-leaves t ∙ sym q))

  -- The old tree spans both subtrees; `sub` is what is proved of the right ones.
  spanning_sound :
      (m : ℕ) (old l r : Tree) (s oh nh : Bytes)
      → IsShaped old
      → IsShaped (fork l r)
      → All IsWide (leaves old)
      → All IsWide (leaves (fork l r))
      → size old ≡ m
      → size l < m
      → m ≤ size l + size r
      → IsWide nh
      → internal_hash H s oh ≡ hash H old
      → internal_hash H s nh ≡ hash H (fork l r)
      → ((o : Tree)
          → IsShaped o
          → All IsWide (leaves o)
          → size o ≡ m - size l
          → oh ≡ hash H o
          → nh ≡ hash H r
          → (leaves o ≡ take (m - size l) (leaves r)) ⊎ Collision H)
      → (leaves old ≡ take m (leaves l ++ leaves r)) ⊎ Collision H
  spanning_sound m (leaf x) l r s oh nh so st wo wt z lt le w eo en sub =
      absurd (omega (arith, size-pos l))
  spanning_sound m (fork l' r') l r s oh nh so st wo wt z lt le w eo en sub =
      let k : size l' ≡ size l = IsSplit-unique so.2 (rw z (IsSplit-smaller lt le st.2)) in
      let wl = All-append_left IsWide (leaves l) (leaves r) wt in
      let wr = All-append_right IsWide (leaves l) (leaves r) wt in
      let wl' = All-append_left IsWide (leaves l') (leaves r') wo in
      let wr' = All-append_right IsWide (leaves l') (leaves r') wo in
      let hl = hash-IsWide H digest l wl in
      let hl' = hash-IsWide H digest l' wl' in
      let j = m - size l in
      let front : size l + j ≡ m = omega arith in
      do
        (sl, nr) ←
            internal_hash-inj_right H s nh (hash H l) (hash H r)
              (w ∙ sym (hash-IsWide H digest r wr)) en
        (sl', or) ←
            internal_hash-inj_left H s oh (hash H l') (hash H r') (ap length sl ∙ hl ∙ sym hl') eo
        pl ← same_leaves l' l so.0 st.0 wl' wl k (sym sl' ∙ sl)
        pr ← sub r' so.1 wr' (omega arith) or nr
        inl (
            ap₂ (◌++◌) pl pr
            ∙ sym (take-append_right j (leaves l) (leaves r))
            ∙ ap (λ i. take i (leaves l ++ leaves r)) (ap (λ i. i + j) (length-leaves l) ∙ front))

  -- Proof nodes that lead to the roots of an old and a new tree.
  pub rebuild_sound :
      (f m : ℕ) (old t : Tree) (old_root : Bytes) (start : Bool) (p : List Bytes) (c : ℕ)
      (res : Rebuilt)
      → IsShaped old
      → IsShaped t
      → All IsWide (leaves old)
      → All IsWide (leaves t)
      → size old ≡ m
      → m ≤ size t
      → rebuild H f old_root m (size t) start p c ≡ some res
      → res.old_hash ≡ hash H old
      → res.new_hash ≡ hash H t
      → (leaves old ≡ take m (leaves t)) ⊎ Collision H
  unfolding rebuild
  rebuild_sound zero m old t old_root start p c res so st wo wt z le e eo en = absurd (cc)
  rebuild_sound (suc f) m old (leaf x) old_root start p c res so st wo wt z le e eo en =
      let q : m ≡ 1 = omega (arith, size-pos old) in
      let b : (m == 1) ≡ true = ground arith in
      whole_sound m old (leaf x) so st wo wt z q
        (sym eo ∙ known-same old_root start p c res (rw b at e) ∙ en)
  rebuild_sound (suc f) m old (fork l r) old_root start p c res so st wo wt z le e eo en =
      elim (fork-cases m (size l) (size r) (size-pos r)) [
        | inl (q, b) ↦
            whole_sound m old (fork l r) so st wo wt z q
              (sym eo ∙ known-same old_root start p c res (rw b at e) ∙ en)
        | inr (inl (q, b, u)) ↦
            let e' = rw (split_of_fork l r st, b, u) at e in
            let (sub, s, found, p', q') = add_right_sibling-inv H _ res e' in
            let old_eq : sub.old_hash ≡ hash H old = sym p' ∙ eo in
            let wl = All-append_left IsWide (leaves l) (leaves r) wt in
            let wide =
              node_IsWide H digest f m (size l) old old_root start p c sub wo found old_eq in
            do
              (nl, _) ←
                  internal_hash-inj_left H sub.new_hash s (hash H l) (hash H r)
                    (wide ∙ sym (hash-IsWide H digest l wl)) (sym q' ∙ en)
              same ←
                  rebuild_sound f m old l old_root start p c sub so st.0 wo wl z q found old_eq nl
              inl (
                  same
                  ∙ sym (take-append_left m (leaves l) (leaves r) (omega (arith, length-leaves l))))
        | inr (inr (q, b, u)) ↦
            let j = m - size l in
            let ne : m ≢ size l + size r =
              λ x. cc (b, ap (λ k. k == (size l + size r)) x, eq_self (size l + size r)) in
            let e' = rw (split_of_fork l r st, b, u, add-sub_cancel_left) at e in
            let (sub, s, found, p', q') = add_left_sibling-inv H _ res e' in
            let wr = All-append_right IsWide (leaves l) (leaves r) wt in
            let wide =
              span_IsWide H digest f j (size r) old_root false p c sub (omega arith) found in
            spanning_sound m old l r s sub.old_hash sub.new_hash so st wo wt z q le wide
              (sym p' ∙ eo) (sym q' ∙ en)
              (λ o sho wio zo oh nh.
                rebuild_sound f j o r old_root false p c sub sho st.1 wio wr zo (omega arith) found
                  oh nh)
      ]
