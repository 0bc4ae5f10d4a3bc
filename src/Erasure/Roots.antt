-- ===== src/Erasure/Roots.antt =====
-- A polynomial over the field that has as many roots as coefficients is zero.
use Prim.Native.Nat.{bit_xor}
use suwappu_lattice_protocol.Prelude.{
  ℕ, zero, suc, ◌<◌, ◌≤◌, ◌≡◌, ◌≢◌, refl, sym, ap, ◌∙◌, List, [], ◌∷◌, length, arith,
}
use suwappu_lattice_protocol.Galois.{gf_mul}
use suwappu_lattice_protocol.Galois.Xor.{
  zero-bit_xor, bit_xor-zero, bit_xor-byte, bit_xor_self, bit_xor_comm, xor-eq_zero,
  xor-swap_middle,
}
use suwappu_lattice_protocol.Galois.Field.{
  gf_mul-zero, gf_mul_comm, gf_mul-byte, gf_mul_assoc, gf_mul-xor, gf_mul-eq_zero,
}
use suwappu_lattice_protocol.Erasure.{alpha_powers}
use suwappu_lattice_protocol.Erasure.Rows.{AllBytes, dot, xor-gf_mul}
use suwappu_lattice_protocol.Erasure.Units.{IsZeros}

-- The value of a polynomial, whose coefficients stand from the lowest up.
pub value : List ℕ → ℕ → ℕ
value [] a = 0
value (x ∷ xs) a = bit_xor x (gf_mul a (value xs a))

pub value-byte : (xs : List ℕ) (a : ℕ) → AllBytes xs → a < 256 → value xs a < 256
unfolding value
value-byte [] a h ha = omega arith
value-byte (x ∷ xs) a (hx, h) ha =
    bit_xor-byte x (gf_mul a (value xs a)) hx (gf_mul-byte a (value xs a) ha (value-byte xs a h ha))

pub dot-alpha_powers :
    (p a m : ℕ) (xs : List ℕ)
    → length xs ≡ m
    → p < 256
    → a < 256
    → AllBytes xs
    → dot (alpha_powers p a m) xs ≡ gf_mul p (value xs a)
unfolding dot alpha_powers value
dot-alpha_powers p a zero [] n hp ha h = sym (gf_mul-zero p)
dot-alpha_powers p a zero (x ∷ xs) n hp ha h = absurd (omega arith)
dot-alpha_powers p a (suc m) [] n hp ha h = absurd (omega arith)
dot-alpha_powers p a (suc m) (x ∷ xs) n hp ha (hx, h) =
    let b = value-byte xs a h ha in
    ap (bit_xor (gf_mul p x)) (
      dot-alpha_powers (gf_mul p a) a m xs (omega arith) (gf_mul-byte p a hp ha) ha h
      ∙ gf_mul_assoc p a (value xs a) hp ha b)
    ∙ sym (gf_mul-xor p x (gf_mul a (value xs a)) hp hx (gf_mul-byte a (value xs a) ha b))

-- The quotient by `x - a` of the polynomial with these coefficients behind its first one.
quotient : ℕ → List ℕ → List ℕ
quotient a [] = []
quotient a (w ∷ ws) = value (w ∷ ws) a ∷ quotient a ws

length-quotient : (a : ℕ) (ws : List ℕ) → length (quotient a ws) ≡ length ws
unfolding quotient
length-quotient a [] = refl
length-quotient a (w ∷ ws) = ap suc (length-quotient a ws)

quotient-bytes : (a : ℕ) (ws : List ℕ) → a < 256 → AllBytes ws → AllBytes (quotient a ws)
unfolding quotient
quotient-bytes a [] ha h = tt
quotient-bytes a (w ∷ ws) ha (hw, h) = (value-byte (w ∷ ws) a (hw, h) ha, quotient-bytes a ws ha h)

-- Equal first terms of a sum cancel.
cancel_first : (w x y : ℕ) → bit_xor (bit_xor w x) (bit_xor w y) ≡ bit_xor x y
cancel_first w x y =
    xor-swap_middle w x w y
    ∙ ap (λ z. bit_xor z (bit_xor x y)) (bit_xor_self w)
    ∙ zero-bit_xor (bit_xor x y)

cancel_middle : (x y z : ℕ) → bit_xor (bit_xor x y) (bit_xor z x) ≡ bit_xor z y
cancel_middle x y z =
    ap (bit_xor (bit_xor x y)) (bit_xor_comm z x) ∙ cancel_first x y z ∙ bit_xor_comm y z

value-quotient :
    (a b : ℕ) (ws : List ℕ)
    → a < 256
    → b < 256
    → AllBytes ws
    → bit_xor (gf_mul b (value ws b)) (gf_mul a (value ws a))
      ≡ gf_mul (bit_xor b a) (value (quotient a ws) b)
unfolding value quotient
value-quotient a b [] ha hb h =
    ap (λ z. bit_xor z (gf_mul a 0)) (gf_mul-zero b)
    ∙ ap (bit_xor 0) (gf_mul-zero a)
    ∙ zero-bit_xor 0
    ∙ sym (gf_mul-zero (bit_xor b a))
value-quotient a b (w ∷ ws) ha hb (hw, h) =
    let d = bit_xor b a in
    let sa = bit_xor w (gf_mul a (value ws a)) in
    let sb = bit_xor w (gf_mul b (value ws b)) in
    let q = value (quotient a ws) b in
    let hd = bit_xor-byte b a hb ha in
    let hsa = value-byte (w ∷ ws) a (hw, h) ha in
    let hsb = value-byte (w ∷ ws) b (hw, h) hb in
    let hq = value-byte (quotient a ws) b (quotient-bytes a ws ha h) hb in
    let diff : bit_xor sb sa ≡ gf_mul d q =
      cancel_first w (gf_mul b (value ws b)) (gf_mul a (value ws a))
      ∙ value-quotient a b ws ha hb h in
    let last : gf_mul d (gf_mul b q) ≡ bit_xor (gf_mul b sb) (gf_mul b sa) =
      sym (gf_mul_assoc d b q hd hb hq)
      ∙ ap (λ z. gf_mul z q) (gf_mul_comm d b)
      ∙ gf_mul_assoc b d q hb hd hq
      ∙ ap (gf_mul b) (sym diff)
      ∙ gf_mul-xor b sb sa hb hsb hsa in
    sym (
      gf_mul-xor d sa (gf_mul b q) hd hsa (gf_mul-byte b q hb hq)
      ∙ ap (λ z. bit_xor z (gf_mul d (gf_mul b q))) (xor-gf_mul b a sa hb ha hsa)
      ∙ ap (bit_xor (bit_xor (gf_mul b sa) (gf_mul a sa))) last
      ∙ cancel_middle (gf_mul b sa) (gf_mul a sa) (gf_mul b sb))

value-zeros : (xs : List ℕ) (a : ℕ) → IsZeros xs → value xs a ≡ 0
unfolding value
value-zeros [] a h = refl
value-zeros (x ∷ xs) a (e, h) =
    ap (λ z. bit_xor z (gf_mul a (value xs a))) e
    ∙ zero-bit_xor (gf_mul a (value xs a))
    ∙ ap (gf_mul a) (value-zeros xs a h)
    ∙ gf_mul-zero a

-- A first coefficient before zeros is the value.
first_zero : (x a : ℕ) (xs : List ℕ) → IsZeros xs → value (x ∷ xs) a ≡ 0 → x ≡ 0
unfolding value
first_zero x a xs h e =
    sym (bit_xor-zero x)
    ∙ ap (bit_xor x) (sym (ap (gf_mul a) (value-zeros xs a h) ∙ gf_mul-zero a))
    ∙ e

quotient-IsZeros : (a : ℕ) (ws : List ℕ) → IsZeros (quotient a ws) → IsZeros ws
unfolding quotient
quotient-IsZeros a [] h = tt
quotient-IsZeros a (w ∷ ws) (e, h) =
    let rest = quotient-IsZeros a ws h in (first_zero w a ws rest e, rest)

abbrev pub Each : (ℕ → Type 0) → List ℕ → Type 0
Each P [] = Unit
Each P (x ∷ xs) = P x × Each P xs

pub Each-map : (P Q : ℕ → Type 0) (xs : List ℕ) → ((x : ℕ) → P x → Q x) → Each P xs → Each Q xs
Each-map P Q [] f h = tt
Each-map P Q (x ∷ xs) f (p, h) = (f x p, Each-map P Q xs f h)

pub Each-and : (P Q : ℕ → Type 0) (xs : List ℕ) → Each P xs → Each Q xs → Each (λ x. P x × Q x) xs
Each-and P Q [] h k = tt
Each-and P Q (x ∷ xs) (p, h) (q, k) = ((p, q), Each-and P Q xs h k)

-- Each number is less than all that follow.
abbrev pub IsRising : List ℕ → Type 0
IsRising [] = Unit
IsRising (x ∷ xs) = Each (λ y. x < y) xs × IsRising xs

pub roots-IsZeros :
    (ps : List ℕ) (xs : List ℕ)
    → IsRising ps
    → Each (λ a. a < 256) ps
    → AllBytes xs
    → length xs ≤ length ps
    → Each (λ a. value xs a ≡ 0) ps
    → IsZeros xs
unfolding value
roots-IsZeros ps [] up ha h n e = tt
roots-IsZeros [] (x ∷ xs) up ha h n e = absurd (omega arith)
roots-IsZeros (a ∷ ps) (x ∷ xs) (over, up) (ha, has) (hx, h) n (e, es) =
    let root : (b : ℕ)
        → ((a < b) × (b < 256)) × (value (x ∷ xs) b ≡ 0)
        → value (quotient a xs) b ≡ 0 =
      λ b ((lt, hb), eb).
        let same : gf_mul b (value xs b) ≡ gf_mul a (value xs a) =
          sym (xor-eq_zero x (gf_mul b (value xs b)) eb)
          ∙ xor-eq_zero x (gf_mul a (value xs a)) e in
        let apart : bit_xor b a ≢ 0 = λ z. let f = xor-eq_zero b a z in omega (arith, f, lt) in
        gf_mul-eq_zero (bit_xor b a) (value (quotient a xs) b) apart (bit_xor-byte b a hb ha)
          (value-byte (quotient a xs) b (quotient-bytes a xs ha h) hb)
          (sym (value-quotient a b xs ha hb h)
            ∙ ap (λ z. bit_xor z (gf_mul a (value xs a))) same
            ∙ bit_xor_self (gf_mul a (value xs a))) in
    let zeros =
      roots-IsZeros ps (quotient a xs) up has (quotient-bytes a xs ha h)
        (omega (arith, length-quotient a xs, n))
        (Each-map (λ b. ((a < b) × (b < 256)) × (value (x ∷ xs) b ≡ 0))
          (λ b. value (quotient a xs) b ≡ 0) ps root
          (Each-and (λ b. (a < b) × (b < 256)) (λ b. value (x ∷ xs) b ≡ 0) ps
            (Each-and (λ b. a < b) (λ b. b < 256) ps over has) es)) in
    let rest = quotient-IsZeros a xs zeros in (first_zero x a xs rest e, rest)
