-- ===== src/Galois/Field.antt =====
-- `_gf_mul`, `_gf_inv` and `^` make the bytes a field.
use Prim.Native.Nat.{bit_xor}
use suwappu_lattice_protocol.Prelude.{
  ℕ, zero, suc, ◌+◌, ◌-◌, ◌%◌, ◌<◌, ◌≡◌, ◌≢◌, refl, sym, ap, ◌∙◌, false, ◌||◌, ◌==◌, ok, Result,
  arith,
}
use suwappu_lattice_protocol.Galois.{shift_reduce, gf_mul, gf_inv}
use suwappu_lattice_protocol.Galois.Xor.{zero-bit_xor, bit_xor-byte}
use suwappu_lattice_protocol.Galois.Tables.{
  power, log, IsPower, IsPower-IsPower, power-next, log-lt, power-log, shift_reduce-byte,
  shift_reduce-xor, power-zero, log-one,
}

pub zero-gf_mul : (b : ℕ) → gf_mul 0 b ≡ 0
unfolding gf_mul
zero-gf_mul b = refl

pub gf_mul-zero : (a : ℕ) → gf_mul a 0 ≡ 0
unfolding gf_mul
gf_mul-zero a = ground arith

-- Of numbers that are not zero.
gf_mul-power : (a b : ℕ) → 0 < a → 0 < b → gf_mul a b ≡ power (log a + log b)
unfolding gf_mul
gf_mul-power a b h k = let one : ((a == 0) || (b == 0)) ≡ false = ground arith in rw one refl

pub gf_mul_comm : (a b : ℕ) → gf_mul a b ≡ gf_mul b a
gf_mul_comm zero b = zero-gf_mul b ∙ sym (gf_mul-zero b)
gf_mul_comm (suc a) zero = gf_mul-zero (suc a) ∙ sym (zero-gf_mul (suc a))
gf_mul_comm (suc a) (suc b) =
    gf_mul-power (suc a) (suc b) (omega arith) (omega arith)
    ∙ ap power (omega arith)
    ∙ sym (gf_mul-power (suc b) (suc a) (omega arith) (omega arith))

product : (a b : ℕ) → 0 < a → 0 < b → a < 256 → b < 256 → IsPower (log a + log b)
product a b p q h k = IsPower-IsPower (log a + log b) (omega (arith, log-lt a p h, log-lt b q k))

pub gf_mul-byte : (a b : ℕ) → a < 256 → b < 256 → gf_mul a b < 256
gf_mul-byte zero b h k = omega (arith, zero-gf_mul b)
gf_mul-byte (suc a) zero h k = omega (arith, gf_mul-zero (suc a))
gf_mul-byte (suc a) (suc b) h k = omega (
  arith,
  gf_mul-power (suc a) (suc b) (omega arith) (omega arith),
  (product (suc a) (suc b) (omega arith) (omega arith) h k).byte,
)

gf_mul-positive : (a b : ℕ) → 0 < a → 0 < b → a < 256 → b < 256 → 0 < gf_mul a b
gf_mul-positive a b p q h k = omega (arith, gf_mul-power a b p q, (product a b p q h k).positive)

log-gf_mul :
    (a b : ℕ) → 0 < a → 0 < b → a < 256 → b < 256 → log (gf_mul a b) ≡ (log a + log b) % 255
log-gf_mul a b p q h k = ap log (gf_mul-power a b p q) ∙ (product a b p q h k).logged

-- Exponents count up to multiples of 255.
power-mod : (i j : ℕ) → i < 511 → j < 511 → i % 255 ≡ j % 255 → power i ≡ power j
power-mod i j h k e = (IsPower-IsPower i h).cycle ∙ ap power e ∙ sym (IsPower-IsPower j k).cycle

pub gf_mul_assoc :
    (a b c : ℕ) → a < 256 → b < 256 → c < 256 → gf_mul (gf_mul a b) c ≡ gf_mul a (gf_mul b c)
gf_mul_assoc zero b c h k m =
    ap (λ x. gf_mul x c) (zero-gf_mul b) ∙ zero-gf_mul c ∙ sym (zero-gf_mul (gf_mul b c))
gf_mul_assoc (suc a) zero c h k m =
    ap (λ x. gf_mul x c) (gf_mul-zero (suc a))
    ∙ zero-gf_mul c
    ∙ sym (ap (gf_mul (suc a)) (zero-gf_mul c) ∙ gf_mul-zero (suc a))
gf_mul_assoc (suc a) (suc b) zero h k m =
    gf_mul-zero _ ∙ sym (ap (gf_mul (suc a)) (gf_mul-zero (suc b)) ∙ gf_mul-zero (suc a))
gf_mul_assoc (suc a) (suc b) (suc c) h k m =
    let pa : 0 < suc a = omega arith in
    let pb : 0 < suc b = omega arith in
    let pc : 0 < suc c = omega arith in
    let la = log-lt (suc a) pa h in
    let lb = log-lt (suc b) pb k in
    let lc = log-lt (suc c) pc m in
    gf_mul-power (gf_mul (suc a) (suc b)) (suc c) (gf_mul-positive (suc a) (suc b) pa pb h k) pc
    ∙ ap (λ x. power (x + log (suc c))) (log-gf_mul (suc a) (suc b) pa pb h k)
    ∙ power-mod ((log (suc a) + log (suc b)) % 255 + log (suc c))
        (log (suc a) + (log (suc b) + log (suc c)) % 255) (omega arith) (omega arith) (omega arith)
    ∙ ap (λ x. power (log (suc a) + x)) (sym (log-gf_mul (suc b) (suc c) pb pc k m))
    ∙ sym (
        gf_mul-power (suc a) (gf_mul (suc b) (suc c)) pa
          (gf_mul-positive (suc b) (suc c) pb pc k m))

pub one-gf_mul : (b : ℕ) → b < 256 → gf_mul 1 b ≡ b
one-gf_mul zero h = gf_mul-zero 1
one-gf_mul (suc b) h =
    gf_mul-power 1 (suc b) (omega arith) (omega arith)
    ∙ ap power (omega (arith, log-one))
    ∙ power-log (suc b) (omega arith) h

-- The inverse of a byte that is not zero.
pub gf_inv-gf_mul :
    (a : ℕ) → a ≢ 0 → a < 256 → (b : ℕ) × (gf_inv a ≡ ok b) × (b < 256) × (gf_mul b a ≡ 1)
unfolding gf_inv
gf_inv-gf_mul zero p h = absurd (p refl)
gf_inv-gf_mul (suc a) p h =
    let la = log-lt (suc a) (omega arith) h in
    let b = power (255 - log (suc a)) in
    let g = IsPower-IsPower (255 - log (suc a)) (omega arith) in
    let some_a : (suc a == 0) ≡ false = ground arith in
    (
      b,
      rw some_a refl,
      g.byte,
      gf_mul-power b (suc a) g.positive (omega arith)
          ∙ ap (λ x. power (x + log (suc a))) g.logged
          ∙ power-mod ((255 - log (suc a)) % 255 + log (suc a)) 0 (omega arith) (omega arith)
              (omega arith)
          ∙ power-zero,
    )

-- Multiplication by a power of two shifts as often.
shifts : ℕ → ℕ → ℕ
shifts zero b = b
shifts (suc n) b = shift_reduce (shifts n b)

shifts-byte : (n b : ℕ) → b < 256 → shifts n b < 256
unfolding shifts
shifts-byte zero b h = h
shifts-byte (suc n) b h = shift_reduce-byte (shifts n b) (shifts-byte n b h)

shifts-xor :
    (n b c : ℕ) → b < 256 → c < 256 → shifts n (bit_xor b c) ≡ bit_xor (shifts n b) (shifts n c)
unfolding shifts
shifts-xor zero b c h k = refl
shifts-xor (suc n) b c h k =
    ap shift_reduce (shifts-xor n b c h k)
    ∙ shift_reduce-xor (shifts n b) (shifts n c) (shifts-byte n b h) (shifts-byte n c k)

shifts-zero : (n : ℕ) → shifts n 0 ≡ 0
unfolding shifts shift_reduce
shifts-zero zero = refl
shifts-zero (suc n) = ap shift_reduce (shifts-zero n)

shifts-power : (n j : ℕ) → n + j < 511 → shifts n (power j) ≡ power (n + j)
unfolding shifts
shifts-power zero j h = ap power (omega arith)
shifts-power (suc n) j h =
    ap shift_reduce (shifts-power n j (omega arith))
    ∙ power-next (n + j) (omega arith)
    ∙ ap power (omega arith)

gf_mul-shifts : (a b : ℕ) → 0 < a → a < 256 → b < 256 → gf_mul a b ≡ shifts (log a) b
gf_mul-shifts a zero p h k = gf_mul-zero a ∙ sym (shifts-zero (log a))
gf_mul-shifts a (suc b) p h k =
    let la = log-lt a p h in
    let lb = log-lt (suc b) (omega arith) k in
    gf_mul-power a (suc b) p (omega arith)
    ∙ sym (shifts-power (log a) (log (suc b)) (omega arith))
    ∙ ap (shifts (log a)) (power-log (suc b) (omega arith) k)

pub gf_mul-xor :
    (a b c : ℕ)
    → a < 256
    → b < 256
    → c < 256
    → gf_mul a (bit_xor b c) ≡ bit_xor (gf_mul a b) (gf_mul a c)
gf_mul-xor zero b c h k m =
    zero-gf_mul (bit_xor b c)
    ∙ sym (zero-bit_xor 0)
    ∙ sym (ap (λ x. bit_xor x (gf_mul 0 c)) (zero-gf_mul b) ∙ ap (bit_xor 0) (zero-gf_mul c))
gf_mul-xor (suc a) b c h k m =
    let p : 0 < suc a = omega arith in
    gf_mul-shifts (suc a) (bit_xor b c) p h (bit_xor-byte b c k m)
    ∙ shifts-xor (log (suc a)) b c k m
    ∙ sym (
        ap (λ x. bit_xor x (gf_mul (suc a) c)) (gf_mul-shifts (suc a) b p h k)
        ∙ ap (bit_xor (shifts (log (suc a)) b)) (gf_mul-shifts (suc a) c p h m))

-- A product that is zero has a factor that is zero.
pub gf_mul-eq_zero : (a b : ℕ) → a ≢ 0 → a < 256 → b < 256 → gf_mul a b ≡ 0 → b ≡ 0
gf_mul-eq_zero zero b p h k e = absurd (p refl)
gf_mul-eq_zero (suc a) zero p h k e = refl
gf_mul-eq_zero (suc a) (suc b) p h k e =
    absurd (omega (arith, e, gf_mul-positive (suc a) (suc b) (omega arith) (omega arith) h k))

-- The laws of a field on bytes, with `^` as addition.
pub record IsField (mul : ℕ → ℕ → ℕ) (inv : ℕ → Result ℕ) : Type 0 where
  pub closed : (a b : ℕ) → a < 256 → b < 256 → mul a b < 256
  pub comm : (a b : ℕ) → mul a b ≡ mul b a
  pub assoc : (a b c : ℕ) → a < 256 → b < 256 → c < 256 → mul (mul a b) c ≡ mul a (mul b c)
  pub unit : (b : ℕ) → b < 256 → mul 1 b ≡ b
  pub distributes :
      (a b c : ℕ) → a < 256 → b < 256 → c < 256 → mul a (bit_xor b c) ≡ bit_xor (mul a b) (mul a c)
  pub inverse : (a : ℕ) → a ≢ 0 → a < 256 → (b : ℕ) × (inv a ≡ ok b) × (b < 256) × (mul b a ≡ 1)

-- Multiplication and inversion by the tables make the bytes a field, with `^` as addition.
pub gf_mul-IsField : IsField gf_mul gf_inv
gf_mul-IsField = record {
  closed = gf_mul-byte;
  comm = gf_mul_comm;
  assoc = gf_mul_assoc;
  unit = one-gf_mul;
  distributes = gf_mul-xor;
  inverse = gf_inv-gf_mul;
}
