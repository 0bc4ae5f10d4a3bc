-- ===== src/Merkle/Log/Invariant.antt =====
-- What holds of a log between two calls.
use native.Mathlib.Nat.{add-zero}
use suwappu_lattice_protocol.Prelude.{
  ℕ, suc, ◌+◌, ◌≤◌, ◌≡◌, ap, sym, ◌∙◌, refl, subst, List, [], ◌∷◌, ◌++◌, length, take, take_all,
  take-append_left, length-append, All, Bytes, ok, arith, ◌==◌, true, bind-eq_ok, ok-inj,
}
use suwappu_lattice_protocol.Merkle.Functions.{leaf_hash, compute_root}
use suwappu_lattice_protocol.Merkle.Guarantees.{hashed, length-hashed}
use suwappu_lattice_protocol.Merkle.MerkleTree
use suwappu_lattice_protocol.Merkle.MerkleTree.{MerkleTree, capacity}
use suwappu_lattice_protocol.Merkle.MerkleTree.Cache.{
  IsCoherent, empty-IsCoherent, append-eq_ok, append-IsCoherent, root-refreshed,
}
use suwappu_lattice_protocol.Merkle.Sth
use suwappu_lattice_protocol.Merkle.Sth.{SignedTreeHead, SigningKey, Mldsa}
use suwappu_lattice_protocol.Merkle.Log.{MerkleLog, init, append, publish_sth}

-- The root of the tree over records: of no record, the digest of the empty string.
abbrev pub IsRootOf : (Bytes → Bytes) → List Bytes → Bytes → Type 0
IsRootOf H [] root = root ≡ H []
IsRootOf H (r ∷ rs) root = compute_root H (hashed H (r ∷ rs)) ≡ ok root

-- A head that was published for the first records of the log.
pub record IsHead (H : Bytes → Bytes) (records : List Bytes) (s : SignedTreeHead) : Type 0 where
  pub within : s.tree_size ≤ length records
  pub rooted : IsRootOf H (take s.tree_size records) s.root_hash

-- The sequence numbers of the heads count up from a number.
abbrev pub Numbered : ℕ → List SignedTreeHead → Type 0
Numbered n [] = Unit
Numbered n (s ∷ ss) = (s.sequence ≡ n) × Numbered (suc n) ss

pub record IsLog (H : Bytes → Bytes) (log : MerkleLog) : Type 0 where
  pub hashes : log.tree.leaves ≡ hashed H log.records
  pub coherent : IsCoherent H log.tree
  pub counted : log.sequence ≡ length log.sths
  pub numbered : Numbered 0 log.sths
  pub heads : All (IsHead H log.records) log.sths

Numbered-append :
    (n : ℕ) (ss : List SignedTreeHead) (s : SignedTreeHead)
    → Numbered n ss
    → s.sequence ≡ n + length ss
    → Numbered n (ss ++ (s ∷ []))
Numbered-append n [] s h e = (e ∙ add-zero n, tt)
Numbered-append n (t ∷ ss) s h e = (h.0, Numbered-append (suc n) ss s h.1 (omega arith))

All-snoc {ℓ κ} :
    {A : Type ℓ} (P : A → Type κ) (xs : List A) (x : A) → All P xs → P x → All P (xs ++ (x ∷ []))
All-snoc P [] x h p = (p, tt)
All-snoc P (y ∷ xs) x h p = (h.0, All-snoc P xs x h.1 p)

module _ (H : Bytes → Bytes) where
  IsHead-append :
      (rs : List Bytes) (r : Bytes) (s : SignedTreeHead)
      → IsHead H rs s
      → IsHead H (rs ++ (r ∷ [])) s
  IsHead-append rs r s h = record {
    within = omega (arith, h.within, length-append {0} rs (r ∷ []));
    rooted = rw (take-append_left s.tree_size rs (r ∷ []) h.within) h.rooted;
  }

  heads-append :
      (rs : List Bytes) (r : Bytes) (ss : List SignedTreeHead)
      → All (IsHead H rs) ss
      → All (IsHead H (rs ++ (r ∷ []))) ss
  heads-append rs r [] h = tt
  heads-append rs r (s ∷ ss) h = (IsHead-append rs r s h.0, heads-append rs r ss h.1)

  hashed-snoc :
      (rs : List Bytes) (r : Bytes)
      → hashed H (rs ++ (r ∷ [])) ≡ hashed H rs ++ (leaf_hash H r ∷ [])
  hashed-snoc [] r = refl
  hashed-snoc (q ∷ rs) r = ap (◌∷◌ (leaf_hash H q)) (hashed-snoc rs r)

  pub init-IsLog : (vk : Bytes) (sk : SigningKey) → IsLog H (init vk sk)
  init-IsLog vk sk = record {
    hashes = refl;
    coherent = empty-IsCoherent H;
    counted = refl;
    numbered = tt;
    heads = tt;
  }

  -- What a successful append does.
  pub append-eq :
      (log log' : MerkleLog) (content : Bytes) (i : ℕ)
      → append H log content ≡ ok (log', i)
      → (t : MerkleTree) × (MerkleTree.append H log.tree content ≡ ok (t, i))
        × (log' ≡ record log { tree = t; records = log.records ++ (content ∷ []) })
  unfolding append
  append-eq log log' content i e =
      let (tj, p, q) = bind-eq_ok (MerkleTree.append H log.tree content) _ e in
      let (t, j) = tj in
      let same = ok-inj q in
      (t, p ∙ ap (λ k. ok (t, k)) (ap (λ x. x.1) same), sym (ap (λ x. x.0) same))

  -- A successful append keeps the invariant and returns the index of the new record.
  pub append-IsLog :
      (log log' : MerkleLog) (content : Bytes) (i : ℕ)
      → IsLog H log
      → append H log content ≡ ok (log', i)
      → IsLog H log' × (log'.records ≡ log.records ++ (content ∷ [])) × (i ≡ length log.records)
  append-IsLog log log' content i v e =
      let (t, a, same) = append-eq log log' content i e in
      let (et, ei, _) = append-eq_ok H log.tree t content i a in
      let grown : t.leaves ≡ log.tree.leaves ++ (leaf_hash H content ∷ []) =
        ap (λ u. u.leaves) et in
      rw same (
        record {
          hashes =
              grown
              ∙ ap (λ xs. xs ++ (leaf_hash H content ∷ [])) v.hashes
              ∙ sym (hashed-snoc log.records content);
          coherent = append-IsCoherent H log.tree t content i v.coherent a;
          counted = v.counted;
          numbered = v.numbered;
          heads = heads-append log.records content log.sths v.heads;
        },
        refl,
        ei ∙ ap length v.hashes ∙ length-hashed H log.records,
      )

  rooted :
      (t : MerkleTree) (rs : List Bytes)
      → t.leaves ≡ hashed H rs
      → IsCoherent H t
      → (u : MerkleTree) × (r : Bytes) × (MerkleTree.root H t ≡ ok (u, r))
        × (u.leaves ≡ t.leaves)
        × IsCoherent H u
        × IsRootOf H rs r
  rooted t [] e c =
      let z : (length t.leaves == 0) ≡ true = rw e refl in
      (t, H [], unfold MerkleTree.root in rw z, refl, c, refl)
  rooted t (r ∷ rs) e c =
      let n : 1 ≤ length t.leaves = omega (arith, ap (length {0}) e) in
      let (u, x, p, q, l, d) = root-refreshed H t c n in (u, x, p, l, d, rw e at q)

  -- The tree's root on a log: the root of its records.
  pub root-eq :
      (log : MerkleLog)
      → IsLog H log
      → (u : MerkleTree) × (r : Bytes) × (MerkleTree.root H log.tree ≡ ok (u, r))
        × (u.leaves ≡ log.tree.leaves)
        × IsCoherent H u
        × IsRootOf H log.records r
  root-eq log v = rooted log.tree log.records v.hashes v.coherent

  module _ (dsa : Mldsa) where
    sign-eq :
        (n z : ℕ) (root vk : Bytes) (sk : SigningKey) (now : Bytes) (s : SignedTreeHead)
        → Sth.sign dsa n z root vk sk now ≡ ok s
        → (s.sequence ≡ n) × (s.tree_size ≡ z) × (s.root_hash ≡ root)
    unfolding Sth.sign
    sign-eq n z root vk sk now s e =
        let (m, _, q) = bind-eq_ok (Sth.payload n z now root) _ e in
        let same = ok-inj q in
        (
          sym (ap (λ x. x.sequence) same),
          sym (ap (λ x. x.tree_size) same),
          sym (ap (λ x. x.root_hash) same),
        )

    IsHead-all :
        (rs : List Bytes) (s : SignedTreeHead)
        → s.tree_size ≡ length rs
        → IsRootOf H rs s.root_hash
        → IsHead H rs s
    IsHead-all rs s n r = record { within = omega arith; rooted = rw (n, take_all rs) r }

    -- A successful `publish_sth` on a valid log keeps it valid, keeps the records, and adds one
    -- head: numbered by the count of heads before it, for all the records and with their root.
    pub publish_sth-IsLog :
        (log log' : MerkleLog) (now : Bytes) (s : SignedTreeHead)
        → IsLog H log
        → publish_sth H dsa log now ≡ ok (log', s)
        → IsLog H log'
          × (log'.records ≡ log.records)
          × (log'.sths ≡ log.sths ++ (s ∷ []))
          × (s.sequence ≡ length log.sths)
          × (s.tree_size ≡ length log.records)
          × IsRootOf H log.records s.root_hash
    unfolding publish_sth
    publish_sth-IsLog log log' now s v e =
        let (u, r, p, l, c, rooted) = root-eq log v in
        let e' = rw p at e in
        let (s', signed, q) =
          bind-eq_ok
            (Sth.sign dsa log.sequence (length log.tree.leaves) r log.operator_vk log.operator_sk
              now)
            _ e' in
        let same = ok-inj q in
        let es : s' ≡ s = ap (λ x. x.1) same in
        let (a, b, d) =
          sign-eq log.sequence (length log.tree.leaves) r log.operator_vk log.operator_sk now s
            (rw es at signed) in
        let n : s.tree_size ≡ length log.records =
          b ∙ ap length v.hashes ∙ length-hashed H log.records in
        let root : IsRootOf H log.records s.root_hash =
          subst (IsRootOf H log.records) (sym d) rooted in
        rw (← ap (λ x. x.0) same, es)
          (
            record {
              hashes = l ∙ v.hashes;
              coherent = c;
              counted = omega (arith, v.counted, length-append {0} log.sths (s ∷ []));
              numbered = Numbered-append 0 log.sths s v.numbered (omega (arith, v.counted));
              heads =
                  All-snoc (IsHead H log.records) log.sths s v.heads
                    (IsHead-all log.records s n root);
            },
            refl,
            refl,
            a ∙ v.counted,
            n,
            root,
          )
