-- ===== src/Sequencing/Rising.antt =====
-- The sequence numbers that a batch accepts from one signer.
use suwappu_lattice_protocol.Prelude.{
  ℕ, ◌<◌, ◌≡◌, ◌≢◌, ◌⊎◌, refl, sym, ap, subst, Bool, true, false, Option, none, some, inl, inr,
  List, [], ◌∷◌, leb, ltb-cases, leb-cases, if◌then◌else◌, Bytes, bytes_eq, bytes_eq→eq, Bool-cases,
}
use suwappu_lattice_protocol.Dict.{lookup, insert, lookup-insert}
use suwappu_lattice_protocol.Ledger.{ℤ, pos, negsuc}
use suwappu_lattice_protocol.Sequencing.{
  SequenceTracker, Verdict, accepted, chain_mismatch, expired, replay, newer, advance, Request,
  validate_and_advance, validate_batch,
}

-- Of the requests with their verdicts, the numbers that were accepted from a fingerprint.
abbrev pub note_accepted : Bool → Verdict → ℤ → List ℕ → List ℕ
note_accepted true accepted (pos n) ns = n ∷ ns
note_accepted _ _ _ ns = ns

module _ (signer_fingerprint : Bytes → Bytes) where
  pub accepted_from : Bytes → List Request → List Verdict → List ℕ
  accepted_from f (r ∷ rs) (v ∷ vs) =
      let ns = accepted_from f rs vs in
      note_accepted (bytes_eq (signer_fingerprint r.signer_vk) f) v r.sequence ns
  accepted_from f _ _ = []

-- A number above the mark, if there is one.
pub data Above (n : ℕ) : Option ℕ → Type 0 where
  unseen : Above n none
  above : {m : ℕ} → m < n → Above n (some m)

-- Numbers that rise from a mark to a last one.
pub data Rises : Option ℕ → List ℕ → Option ℕ → Type 0 where
  done : {m : Option ℕ} → Rises m [] m
  next :
      {m e : Option ℕ} {n : ℕ} {ns : List ℕ} → Above n m → Rises (some n) ns e → Rises m (n ∷ ns) e

newer-Above : (m : Option ℕ) (z : ℤ) (n : ℕ) → newer m z ≡ some n → (z ≡ pos n) × Above n m
unfolding newer
newer-Above none (pos k) n h = (ap pos cc, unseen)
newer-Above (some c) (pos k) n h = elim (ltb-cases c k) [
  | inl (lt, t) ↦
      let e : k ≡ n = let f : some k ≡ some n = rw t at h in cc in
      (ap pos e, above (subst (λ x. c < x) e lt))
  | inr (le, t) ↦ absurd (let f : none ≡ some n = rw t at h in cc)
]
newer-Above none (negsuc k) n h = absurd (cc)
newer-Above (some c) (negsuc k) n h = absurd (cc)

-- What is no acceptance adds no number.
note_accepted-refused :
    (b : Bool) (v : Verdict) (z : ℤ) (ns : List ℕ) → v ≢ accepted → note_accepted b v z ns ≡ ns
note_accepted-refused true accepted (pos n) ns h = absurd (h refl)
note_accepted-refused true accepted (negsuc n) ns h = refl
note_accepted-refused true chain_mismatch z ns h = refl
note_accepted-refused true expired z ns h = refl
note_accepted-refused true replay z ns h = refl
note_accepted-refused false v z ns h = refl

module _ (signer_fingerprint : Bytes → Bytes) (t : SequenceTracker) (r : Request) where
  -- A request that is refused changes nothing; one that is accepted is for the chain of the tracker,
  -- not expired and above the mark, and sets it.
  validate-cases :
      ((v : Verdict) × (v ≢ accepted) × (validate_and_advance signer_fingerprint t r ≡ (t, v)))
      ⊎ ((n : ℕ) × (r.target_chain_id ≡ t.chain_id)
          × (r.now < r.valid_until)
          × (r.sequence ≡ pos n)
          × Above n (lookup (signer_fingerprint r.signer_vk) t.high_water_marks)
          × (validate_and_advance signer_fingerprint t r
              ≡ advance t (signer_fingerprint r.signer_vk) (some n)))
  unfolding validate_and_advance
  validate-cases = elim (Bool-cases (bytes_eq r.target_chain_id t.chain_id)) [
    | inr wrong ↦ inl (chain_mismatch, λ q. cc, rw wrong refl)
    | inl right ↦ elim (leb-cases r.valid_until r.now) [
      | inl (le, late) ↦ inl (expired, λ q. cc, rw (right, late) refl)
      | inr (lt, early) ↦
          let m = lookup (signer_fingerprint r.signer_vk) t.high_water_marks in
          at_mark right lt early (newer m r.sequence) refl
    ]
  ]
    where
      at_mark :
          (right : bytes_eq r.target_chain_id t.chain_id ≡ true) (lt : r.now < r.valid_until)
          (early : leb r.valid_until r.now ≡ false) (o : Option ℕ)
          → newer (lookup (signer_fingerprint r.signer_vk) t.high_water_marks) r.sequence ≡ o
          → ((v : Verdict) × (v ≢ accepted)
              × (validate_and_advance signer_fingerprint t r ≡ (t, v)))
            ⊎ ((n : ℕ) × (r.target_chain_id ≡ t.chain_id)
                × (r.now < r.valid_until)
                × (r.sequence ≡ pos n)
                × Above n (lookup (signer_fingerprint r.signer_vk) t.high_water_marks)
                × (validate_and_advance signer_fingerprint t r
                    ≡ advance t (signer_fingerprint r.signer_vk) (some n)))
      at_mark right lt early none e = inl (replay, λ q. cc, rw (right, early, e) refl)
      at_mark right lt early (some n) e =
          let (whole, up) = newer-Above _ r.sequence n e in
          inr (n, bytes_eq→eq _ _ right, lt, whole, up, rw (right, early, e) refl)

  -- A request changes the mark of its signer alone, and only where it is accepted.
  advance-Rises :
      (f : Bytes) (ns : List ℕ) (e : Option ℕ)
      → Rises (lookup f (validate_and_advance signer_fingerprint t r).0.high_water_marks) ns e
      → Rises
          (lookup f t.high_water_marks)
          (note_accepted
            (bytes_eq (signer_fingerprint r.signer_vk) f)
            (validate_and_advance signer_fingerprint t r).1
            r.sequence
            ns)
          e
  advance-Rises f ns e later = elim validate-cases [
    | inl (v, refused, same) ↦
        let later' : Rises (lookup f t.high_water_marks) ns e =
          subst (λ p. Rises (lookup f p.0.high_water_marks) ns e) same later in
        let none_noted =
          note_accepted-refused (bytes_eq (signer_fingerprint r.signer_vk) f) v r.sequence ns
            refused in
        rw same (subst (λ l. Rises (lookup f t.high_water_marks) l e) (sym none_noted) later')
    | inr (n, chain, time, whole, up, set) ↦
        let k = signer_fingerprint r.signer_vk in
        let marked : lookup f (insert k n t.high_water_marks)
            ≡ (if bytes_eq k f then some n else lookup f t.high_water_marks) =
          lookup-insert k f n t.high_water_marks in
        let later' : Rises (if bytes_eq k f then some n else lookup f t.high_water_marks) ns e =
          subst (λ m. Rises m ns e) marked
            (subst (λ p. Rises (lookup f p.0.high_water_marks) ns e) set later) in
        rw (set, whole)
          (elim (Bool-cases (bytes_eq k f)) [
            | inl here ↦
                let up' : Above n (lookup f t.high_water_marks) =
                  subst (λ j. Above n (lookup j t.high_water_marks)) (bytes_eq→eq k f here) up in
                rw here (next up' (rw here at later'))
            | inr other ↦ rw other (rw other at later')
          ])
  ]

-- Whatever a batch asks, the numbers that it accepts from a fingerprint rise strictly from the mark
-- before to the mark after.
pub validate_batch-Rises :
    (signer_fingerprint : Bytes → Bytes) (t : SequenceTracker) (rs : List Request) (f : Bytes)
    → Rises
        (lookup f t.high_water_marks)
        (accepted_from signer_fingerprint f rs (validate_batch signer_fingerprint t rs).1)
        (lookup f (validate_batch signer_fingerprint t rs).0.high_water_marks)
unfolding validate_batch accepted_from
validate_batch-Rises fp t [] f = done
validate_batch-Rises fp t (r ∷ rs) f =
    let first = validate_and_advance fp t r in
    advance-Rises fp t r f _ _ (validate_batch-Rises fp first.0 rs f)
