-- ===== src/Merkle/Log/Heads.antt =====
-- The heads that one log publishes: no two of them are an equivocation, and each is shown to extend
-- the earlier ones.
use suwappu_lattice_protocol.Prelude.{
  ℕ, zero, suc, ◌+◌, ◌≤◌, ◌<◌, ◌≡◌, ap, sym, ◌∙◌, refl, subst, Bool, true, false, inl, inr, some,
  List, [], ◌∷◌, length, take, take_all, length-take_of_le, get_elem?, ltb, leb, ==-cases, Bytes,
  bytes_eq_refl, Result, ok, ◌>>=◌, arith, All,
}
use suwappu_lattice_protocol.Merkle.Functions.{
  compute_root, compute_root_fuel, subproof_fuel, largest_pow2_below, verify_consistency,
}
use suwappu_lattice_protocol.Merkle.MerkleTree
use suwappu_lattice_protocol.Merkle.MerkleTree.{MerkleTree}
use suwappu_lattice_protocol.Merkle.Guarantees.{hashed, length-hashed}
use suwappu_lattice_protocol.Merkle.AppendOnly.{hashed-take}
use suwappu_lattice_protocol.Merkle.MerkleTree.Extends.{consistency_proof-verify}
use suwappu_lattice_protocol.Merkle.Log.Included.{IsRootOf-nonempty}
use suwappu_lattice_protocol.Merkle.Sth
use suwappu_lattice_protocol.Merkle.Sth.{SignedTreeHead, Mldsa}
use suwappu_lattice_protocol.Merkle.Log.{
  MerkleLog, if_verified, detect_equivocation, append_only_check, verify_append_only,
}
use suwappu_lattice_protocol.Merkle.Log.Invariant.{IsRootOf, IsHead, Numbered, IsLog}

Numbered-get :
    (n i : ℕ) (ss : List SignedTreeHead) (s : SignedTreeHead)
    → Numbered n ss
    → get_elem? ss i ≡ some s
    → s.sequence ≡ n + i
Numbered-get n i [] s h e = absurd (cc)
Numbered-get n zero (t ∷ ss) s h e = ground (arith, h.0)
Numbered-get n (suc i) (t ∷ ss) s h e = omega (arith, Numbered-get (suc n) i ss s h.1 e)

All-get {ℓ κ} :
    {A : Type ℓ} (P : A → Type κ) (i : ℕ) (xs : List A) (x : A)
    → All P xs
    → get_elem? xs i ≡ some x
    → P x
All-get P i [] x h e = absurd (cc)
All-get P zero (y ∷ xs) x h e = subst P (cc) h.0
All-get P (suc i) (y ∷ xs) x h e = All-get P i xs x h.1 e

module _ (H : Bytes → Bytes) (dsa : Mldsa) where
  if_verified-false :
      (s : SignedTreeHead) (valid : Bool) (rest : Result Bool)
      → Sth.verify dsa s ≡ ok valid
      → rest ≡ ok false
      → if_verified H dsa s rest ≡ ok false
  unfolding if_verified
  if_verified-false s valid rest e r = rw (e, r) (ground arith)

  -- Two heads from the list that a valid log has published, whose payloads can be built, are never
  -- reported as an equivocation.
  pub detect_equivocation-own :
      (log : MerkleLog) (i j : ℕ) (s t : SignedTreeHead) (vs vt : Bool)
      → IsLog H log
      → get_elem? log.sths i ≡ some s
      → get_elem? log.sths j ≡ some t
      → Sth.verify dsa s ≡ ok vs
      → Sth.verify dsa t ≡ ok vt
      → detect_equivocation H dsa s t ≡ ok false
  unfolding detect_equivocation
  detect_equivocation-own log i j s t vs vt v es et ps pt = elim (==-cases s.sequence t.sequence) [
    | inl (q, b) ↦
        let here : i ≡ j = omega (
          arith,
          Numbered-get 0 i log.sths s v.numbered es,
          Numbered-get 0 j log.sths t v.numbered et,
        ) in
        let same : s ≡ t = cc (es, et, ap (get_elem? log.sths) here) in
        let roots : s.root_hash ≡ t.root_hash = ap (λ h. h.root_hash) same in
        rw (b, ps, pt, roots, bytes_eq_refl) (ground arith)
    | inr (q, b) ↦ rw b refl
  ]

  -- The root of a head over at least one record.
  head_root :
      (rs : List Bytes) (s : SignedTreeHead)
      → IsHead H rs s
      → 1 ≤ s.tree_size
      → compute_root H (take s.tree_size (hashed H rs)) ≡ ok s.root_hash
  head_root rs s h n = rw (hashed-take H s.tree_size rs) (
      IsRootOf-nonempty H (take s.tree_size rs) s.root_hash
        (omega (arith, length-take_of_le {0} s.tree_size rs h.within)) h.rooted)

  whole_root :
      (rs : List Bytes) (s : SignedTreeHead)
      → IsHead H rs s
      → s.tree_size ≡ length rs
      → 1 ≤ length rs
      → compute_root H (hashed H rs) ≡ ok s.root_hash
  whole_root rs s h e n =
      let all : take s.tree_size (hashed H rs) ≡ hashed H rs =
        hashed-take H s.tree_size rs
        ∙ ap (λ k. hashed H (take k rs)) e
        ∙ ap (hashed H) (take_all rs) in
      ap (compute_root H) (sym all) ∙ head_root rs s h (omega arith)

  proof_accepted :
      (t : MerkleTree) (older newer : SignedTreeHead) (p : List Bytes)
      → MerkleTree.consistency_proof H t older.tree_size ≡ ok p
      → verify_consistency H older.tree_size newer.tree_size older.root_hash newer.root_hash p
        ≡ true
      → (MerkleTree.consistency_proof H t older.tree_size >>= λ q.
          ok (
            verify_consistency H older.tree_size newer.tree_size older.root_hash newer.root_hash q))
        ≡ ok true
  proof_accepted t older newer p e f = rw e (ap ok f)

  checked :
      (log : MerkleLog) (older newer : SignedTreeHead)
      → IsLog H log
      → IsHead H log.records older
      → IsHead H log.records newer
      → older.sequence < newer.sequence
      → newer.tree_size ≡ length log.records
      → append_only_check H dsa log older newer ≡ ok true
  unfolding append_only_check
  checked log older newer v ho hn lt z =
      let a : leb newer.sequence older.sequence ≡ false = ground arith in
      let b : ltb newer.tree_size older.tree_size ≡ false = ground (arith, ho.within) in
      elim (==-cases older.tree_size 0) [
        | inl (q, e) ↦
            let root : older.root_hash ≡ H [] =
              subst (λ k. IsRootOf H (take k log.records) older.root_hash) q ho.rooted in
            rw (a, b, e, root, bytes_eq_refl) refl
        | inr (q, e) ↦
            let n : length log.tree.leaves ≡ length log.records =
              ap length v.hashes ∙ length-hashed H log.records in
            let (p, found, accepted) =
              consistency_proof-verify H log.tree older.tree_size older.root_hash newer.root_hash
                (omega arith) (omega (arith, ho.within))
                (rw v.hashes (head_root log.records older ho (omega arith)))
                (rw v.hashes (whole_root log.records newer hn z (omega (arith, ho.within)))) in
            let at_head =
              subst
                (λ k.
                  verify_consistency H older.tree_size k older.root_hash newer.root_hash p ≡ true)
                (n ∙ sym z) accepted in
            rw (a, b, e) (proof_accepted log.tree older newer p found at_head)
      ]

  if_verified-true :
      (s : SignedTreeHead) (rest : Result Bool)
      → Sth.verify dsa s ≡ ok true
      → if_verified H dsa s rest ≡ rest
  unfolding if_verified
  if_verified-true s rest e = rw e refl

  -- Of two heads that a valid log has published, the newer one for all its present records,
  -- `verify_append_only` says that the newer extends the older, if both signatures verify.
  verify_append_only-own :
      (log : MerkleLog) (i j : ℕ) (older newer : SignedTreeHead)
      → IsLog H log
      → get_elem? log.sths i ≡ some older
      → get_elem? log.sths j ≡ some newer
      → i < j
      → newer.tree_size ≡ length log.records
      → Sth.verify dsa older ≡ ok true
      → Sth.verify dsa newer ≡ ok true
      → verify_append_only H dsa log older newer ≡ ok true
  unfolding verify_append_only
  verify_append_only-own log i j older newer v eo en lt z po pn =
      let ho = All-get (IsHead H log.records) i log.sths older v.heads eo in
      let hn = All-get (IsHead H log.records) j log.sths newer v.heads en in
      let so = Numbered-get 0 i log.sths older v.numbered eo in
      let sn = Numbered-get 0 j log.sths newer v.numbered en in
      if_verified-true older (if_verified H dsa newer (append_only_check H dsa log older newer)) po
      ∙ if_verified-true newer (append_only_check H dsa log older newer) pn
      ∙ checked log older newer v ho hn (omega arith) z

  stale_proof :
      (t : MerkleTree) (a b c : Bytes)
      → t.leaves ≡ a ∷ b ∷ c ∷ []
      → MerkleTree.consistency_proof H t 1 ≡ ok (b ∷ c ∷ [])
  unfolding MerkleTree.consistency_proof subproof_fuel compute_root_fuel largest_pow2_below
  stale_proof t a b c e = rw e refl

  stale_reading : (b c old new : Bytes) → verify_consistency H 1 2 old new (b ∷ c ∷ []) ≡ false
  unfolding verify_consistency largest_pow2_below
  stale_reading b c old new = ground arith

  stale_check :
      (log : MerkleLog) (a b c : Bytes) (older newer : SignedTreeHead)
      → log.tree.leaves ≡ a ∷ b ∷ c ∷ []
      → older.tree_size ≡ 1
      → newer.tree_size ≡ 2
      → append_only_check H dsa log older newer ≡ ok false
  unfolding append_only_check
  stale_check log a b c older newer e n1 n2 =
      rw (n1, n2, stale_proof log.tree a b c e, stale_reading) (ground arith)

  -- The check asks its own tree for the proof, at the present size: in a log of three leaves a head
  -- of size two is never found to extend a head of size one, whatever their roots, where both
  -- signatures verify.
  verify_append_only-stale :
      (log : MerkleLog) (a b c : Bytes) (older newer : SignedTreeHead)
      → log.tree.leaves ≡ a ∷ b ∷ c ∷ []
      → older.tree_size ≡ 1
      → newer.tree_size ≡ 2
      → Sth.verify dsa older ≡ ok true
      → Sth.verify dsa newer ≡ ok true
      → verify_append_only H dsa log older newer ≡ ok false
  unfolding verify_append_only
  verify_append_only-stale log a b c older newer e n1 n2 po pn =
      if_verified-true older (if_verified H dsa newer (append_only_check H dsa log older newer)) po
      ∙ if_verified-true newer (append_only_check H dsa log older newer) pn
      ∙ stale_check log a b c older newer e n1 n2
