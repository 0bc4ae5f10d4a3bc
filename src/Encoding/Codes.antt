-- ===== src/Encoding/Codes.antt =====
-- Parts that can be told apart at the front of any bytes, and so whole encodings.
use suwappu_lattice_protocol.Prelude.{
  ℕ, ◌+◌, ◌*◌, ◌<◌, ◌^◌, ◌≡◌, refl, ap, ◌∙◌, sym, [], ◌∷◌, ◌++◌, length, ltb-cases, Bytes, Result,
  ok, ok-inj, bind-eq_ok, arith, inl, inr,
}
use mathlib.Core.List.{append_assoc}
use suwappu_lattice_protocol.Merkle.Collision.{append_inj_left}
use suwappu_lattice_protocol.Merkle.Sth.{u64_bytes}
use suwappu_lattice_protocol.Merkle.Sth.Payload.{u64_bytes-inj}
use suwappu_lattice_protocol.Encoding.{
  u32_bytes, uint32, uint64, pack_length, length_prefixed_bytes,
}

-- Where two encodings begin some bytes, what they encode is the same and so is the rest.
pub record IsCode {ℓ} {A : Type ℓ} (w : A → Result Bytes) : Type ℓ where
  pub front :
      (a b : A) (p q x y : Bytes) → w a ≡ ok p → w b ≡ ok q → p ++ x ≡ q ++ y → (a ≡ b) × (x ≡ y)

from_u32 : ℕ → Bytes → ℕ
from_u32 acc [] = acc
from_u32 acc (x ∷ xs) = from_u32 (acc * 256 + x) xs

from_u32-u32_bytes : (n : ℕ) → n < 2 ^ 32 → from_u32 0 (u32_bytes n) ≡ n
unfolding from_u32
from_u32-u32_bytes n h = omega arith

pub u32_bytes-inj : (m n : ℕ) → m < 2 ^ 32 → n < 2 ^ 32 → u32_bytes m ≡ u32_bytes n → m ≡ n
u32_bytes-inj m n hm hn e =
    sym (from_u32-u32_bytes m hm) ∙ ap (from_u32 0) e ∙ from_u32-u32_bytes n hn

uint32-eq_ok : (n : ℕ) (b : Bytes) → uint32 n ≡ ok b → (n < 2 ^ 32) × (b ≡ u32_bytes n)
unfolding uint32
uint32-eq_ok n b e = elim (ltb-cases n (2 ^ 32)) [
  | inl (lt, t) ↦ (lt, sym (cc (rw t at e)))
  | inr (le, t) ↦ absurd (cc (rw t at e))
]

pub pack_length-eq_ok :
    (n : ℕ) (b : Bytes) → pack_length n ≡ ok b → (n < 2 ^ 32) × (b ≡ u32_bytes n)
unfolding pack_length
pack_length-eq_ok n b e = elim (ltb-cases n (2 ^ 32)) [
  | inl (lt, t) ↦ (lt, sym (cc (rw t at e)))
  | inr (le, t) ↦ absurd (cc (rw t at e))
]

uint64-eq_ok : (n : ℕ) (b : Bytes) → uint64 n ≡ ok b → (n < 2 ^ 64) × (b ≡ u64_bytes n)
unfolding uint64
uint64-eq_ok n b e = elim (ltb-cases n (2 ^ 64)) [
  | inl (lt, t) ↦ (lt, sym (cc (rw t at e)))
  | inr (le, t) ↦ absurd (cc (rw t at e))
]

-- Two numbers packed in four bytes.
front_u32 :
    (m n : ℕ) (x y : Bytes)
    → m < 2 ^ 32
    → n < 2 ^ 32
    → u32_bytes m ++ x ≡ u32_bytes n ++ y
    → (m ≡ n) × (x ≡ y)
front_u32 m n x y hm hn e =
    let (same, rest) = append_inj_left (u32_bytes m) x (u32_bytes n) y e refl in
    (u32_bytes-inj m n hm hn same, rest)

pub uint32-IsCode : IsCode uint32
uint32-IsCode = record {
  front = λ a b p q x y ha hb e.
      let (la, pa) = uint32-eq_ok a p ha in
      let (lb, pb) = uint32-eq_ok b q hb in front_u32 a b x y la lb (rw (pa, pb) at e);
}

pub uint64-IsCode : IsCode uint64
uint64-IsCode = record {
  front = λ a b p q x y ha hb e.
      let (la, pa) = uint64-eq_ok a p ha in
      let (lb, pb) = uint64-eq_ok b q hb in
      let (same, rest) = append_inj_left (u64_bytes a) x (u64_bytes b) y (rw (pa, pb) at e) refl in
      (u64_bytes-inj a b la lb same, rest);
}

pub length_prefixed_bytes-IsCode : IsCode length_prefixed_bytes
unfolding length_prefixed_bytes
length_prefixed_bytes-IsCode = record {
  front = λ a b p q x y ha hb e.
      let (m, am, pm) = bind-eq_ok (pack_length (length a)) (λ n. ok (n ++ a)) ha in
      let (n, bn, qn) = bind-eq_ok (pack_length (length b)) (λ n. ok (n ++ b)) hb in
      let (lm, em) = pack_length-eq_ok (length a) m am in
      let (ln, en) = pack_length-eq_ok (length b) n bn in
      let whole : m ++ (a ++ x) ≡ n ++ (b ++ y) =
        sym (append_assoc m a x)
        ∙ ap (λ z. z ++ x) (ok-inj pm)
        ∙ e
        ∙ ap (λ z. z ++ y) (sym (ok-inj qn))
        ∙ append_assoc n b y in
      let (same, rest) =
        front_u32 (length a) (length b) (a ++ x) (b ++ y) lm ln (rw (em, en) at whole) in
      append_inj_left a x b y rest same;
}
