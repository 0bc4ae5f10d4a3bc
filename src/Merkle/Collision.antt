-- ===== src/Merkle/Collision.antt =====
-- What a forged proof amounts to: two different inputs of the hash function with one digest.
-- The theorems on forgeries build such a pair; they assume only that digests have 32 bytes.
use suwappu_lattice_protocol.Prelude.{
  ◌≡◌, ◌≢◌, refl, ap, ◌⊎◌, inl, inr, [], ◌∷◌, ◌++◌, length, length-append, Bytes, bytes_discrete,
  arith,
}
use suwappu_lattice_protocol.Merkle.Functions.{leaf_hash, internal_hash}

pub record Collision (H : Bytes → Bytes) : Type 0 where
  pub first : Bytes
  pub second : Bytes
  pub differ : first ≢ second
  pub same : H first ≡ H second

-- BLAKE2b-256 digests have 32 bytes.
pub record IsDigest (H : Bytes → Bytes) : Type 0 where
  pub width : (x : Bytes) → length (H x) ≡ 32

pub append_inj_left : (a b c d : Bytes) → a ++ b ≡ c ++ d → length a ≡ length c → (a ≡ c) × (b ≡ d)
append_inj_left [] b [] d e h = (refl, e)
append_inj_left [] b (y ∷ c) d e h = absurd (omega arith)
append_inj_left (x ∷ a) b [] d e h = absurd (omega arith)
append_inj_left (x ∷ a) b (y ∷ c) d e h =
    let tails : a ++ b ≡ c ++ d = cc in
    let (p, q) = append_inj_left a b c d tails (omega arith) in (cc, q)

append_inj_right : (a b c d : Bytes) → a ++ b ≡ c ++ d → length b ≡ length d → (a ≡ c) × (b ≡ d)
append_inj_right a b c d e h =
    append_inj_left a b c d e
      (omega (arith, ap (length {0}) e, length-append {0} a b, length-append {0} c d))

module _ (H : Bytes → Bytes) where
  pub inputs_agree : (x y : Bytes) → H x ≡ H y → (x ≡ y) ⊎ Collision H
  inputs_agree x y e = elim (bytes_discrete x y) [
    | yes p ↦ inl p
    | no p ↦ inr (record { first = x; second = y; differ = p; same = e })
  ]

  pub leaf_hash-inj : (x y : Bytes) → leaf_hash H x ≡ leaf_hash H y → (x ≡ y) ⊎ Collision H
  unfolding leaf_hash
  leaf_hash-inj x y e = elim (inputs_agree (0 ∷ x) (0 ∷ y) e) [ inl p ↦ inl (cc) | inr c ↦ inr c ]

  -- A leaf never has the digest of an internal node.
  pub leaf-ne-internal : (x l r : Bytes) → leaf_hash H x ≡ internal_hash H l r → Collision H
  unfolding leaf_hash internal_hash
  leaf-ne-internal x l r e = record {
    first = 0 ∷ x;
    second = 1 ∷ (l ++ r);
    differ = λ p. ground arith;
    same = e;
  }

  -- Two internal nodes with one digest have one pair of children, if one child's length is known.
  pub internal_hash-inj_left :
      (a b c d : Bytes)
      → length a ≡ length c
      → internal_hash H a b ≡ internal_hash H c d
      → ((a ≡ c) × (b ≡ d)) ⊎ Collision H
  unfolding internal_hash
  internal_hash-inj_left a b c d h e = elim (inputs_agree (1 ∷ (a ++ b)) (1 ∷ (c ++ d)) e) [
    | inl p ↦ inl (append_inj_left a b c d (cc) h)
    | inr x ↦ inr x
  ]

  pub internal_hash-inj_right :
      (a b c d : Bytes)
      → length b ≡ length d
      → internal_hash H a b ≡ internal_hash H c d
      → ((a ≡ c) × (b ≡ d)) ⊎ Collision H
  unfolding internal_hash
  internal_hash-inj_right a b c d h e = elim (inputs_agree (1 ∷ (a ++ b)) (1 ∷ (c ++ d)) e) [
    | inl p ↦ inl (append_inj_right a b c d (cc) h)
    | inr x ↦ inr x
  ]

-- Chains of conclusions, each of which holds unless a collision is found.
infixl 5 ◌>>=◌
abbrev pub ◌>>=◌ {ℓ κ μ} : {A : Type ℓ} {B : Type κ} {C : Type μ} → A ⊎ C → (A → B ⊎ C) → B ⊎ C
inl a >>= f = f a
inr c >>= f = inr c
