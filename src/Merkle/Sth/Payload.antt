-- ===== src/Merkle/Sth/Payload.antt =====
-- What the payload of a signed tree head determines; the operator's key is not part of it.
use suwappu_lattice_protocol.Prelude.{
  ℕ, ◌+◌, ◌*◌, ◌<◌, ◌^◌, ◌≡◌, refl, ap, ◌∙◌, sym, [], ◌∷◌, ◌++◌, length, Bytes, ok, arith,
  ltb-cases, inl, inr,
}
use suwappu_lattice_protocol.Merkle.Collision.{append_inj_left}
use suwappu_lattice_protocol.Merkle.Sth.{u64_bytes, pack_u64, payload}

-- `int.from_bytes(…, "big")`
abbrev pub from_bytes : ℕ → Bytes → ℕ
from_bytes acc [] = acc
from_bytes acc (x ∷ xs) = from_bytes (acc * 256 + x) xs

pub from_bytes-u64_bytes : (n : ℕ) → n < 2 ^ 64 → from_bytes 0 (u64_bytes n) ≡ n
from_bytes-u64_bytes n h = omega arith

pub u64_bytes-inj : (m n : ℕ) → m < 2 ^ 64 → n < 2 ^ 64 → u64_bytes m ≡ u64_bytes n → m ≡ n
u64_bytes-inj m n hm hn e =
    sym (from_bytes-u64_bytes m hm) ∙ ap (from_bytes 0) e ∙ from_bytes-u64_bytes n hn

pub pack_u64-eq_ok : (n : ℕ) (b : Bytes) → pack_u64 n ≡ ok b → (n < 2 ^ 64) × (b ≡ u64_bytes n)
unfolding pack_u64
pack_u64-eq_ok n b e = elim (ltb-cases n (2 ^ 64)) [
  | inl (lt, t) ↦ (lt, sym (cc (rw t at e)))
  | inr (le, t) ↦ absurd (cc (rw t at e))
]

-- The parts of a payload that was built.
payload-eq_ok :
    (sequence tree_size : ℕ) (timestamp root_hash message : Bytes)
    → payload sequence tree_size timestamp root_hash ≡ ok message
    → (sequence < 2 ^ 64)
      × (tree_size < 2 ^ 64)
      × (message ≡ u64_bytes sequence ++ (u64_bytes tree_size ++ (timestamp ++ root_hash)))
unfolding payload
payload-eq_ok sequence tree_size timestamp root_hash message e =
    elim (ltb-cases sequence (2 ^ 64)) [
      | inl (a, t) ↦ elim (ltb-cases tree_size (2 ^ 64)) [
        | inl (b, u) ↦ (a, b, cc (rw (t, u) at e))
        | inr (b, u) ↦ absurd (cc (rw (t, u) at e))
      ]
      | inr (a, t) ↦ absurd (cc (rw t at e))
    ]

-- Where payloads are built from two timestamps of eight bytes and are the same bytes, they were built
-- from the same sequence number, tree size, timestamp and root hash.
pub payload-inj :
    (m n s t : ℕ) (ts us a b message : Bytes)
    → length ts ≡ 8
    → length us ≡ 8
    → payload m s ts a ≡ ok message
    → payload n t us b ≡ ok message
    → (m ≡ n) × (s ≡ t) × (ts ≡ us) × (a ≡ b)
payload-inj m n s t ts us a b message lt lu e f =
    let (hm, hs, p) = payload-eq_ok m s ts a message e in
    let (hn, ht, q) = payload-eq_ok n t us b message f in
    let (pm, rest) = append_inj_left (u64_bytes m) _ (u64_bytes n) _ (sym p ∙ q) refl in
    let (ps, rest') = append_inj_left (u64_bytes s) _ (u64_bytes t) _ rest refl in
    let (pt, pr) = append_inj_left ts a us b rest' (lt ∙ sym lu) in
    (u64_bytes-inj m n hm hn pm, u64_bytes-inj s t hs ht ps, pt, pr)
