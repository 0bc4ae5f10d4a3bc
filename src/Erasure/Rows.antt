-- ===== src/Erasure/Rows.antt =====
-- Rows of bytes: their products, multiples and sums.
use Prim.Native.Nat.{bit_xor}
use suwappu_lattice_protocol.Prelude.{
  ℕ, zero, suc, ◌<◌, ◌≡◌, refl, sym, ap, ◌∙◌, List, [], ◌∷◌, ◌++◌, length, arith,
}
use suwappu_lattice_protocol.Galois.{entry, gf_mul}
use suwappu_lattice_protocol.Galois.Xor.{
  zero-bit_xor, bit_xor-zero, bit_xor_assoc, bit_xor-byte, xor-swap_middle,
}
use suwappu_lattice_protocol.Galois.Field.{
  zero-gf_mul, gf_mul-zero, gf_mul_comm, gf_mul-byte, gf_mul_assoc, gf_mul-xor,
}
use suwappu_lattice_protocol.Erasure.{sum_products, scale, add_multiple}

abbrev pub AllBytes : List ℕ → Type 0
AllBytes [] = Unit
AllBytes (x ∷ xs) = (x < 256) × AllBytes xs

-- The sum of the products of two rows.
unfoldable pub dot : List ℕ → List ℕ → ℕ
dot [] ys = 0
dot (x ∷ xs) [] = 0
dot (x ∷ xs) (y ∷ ys) = bit_xor (gf_mul x y) (dot xs ys)

pub sum_products-dot : (v : ℕ) (xs ys : List ℕ) → sum_products v xs ys ≡ bit_xor v (dot xs ys)
unfolding sum_products dot
sum_products-dot v [] ys = sym (bit_xor-zero v)
sum_products-dot v (x ∷ xs) [] = sym (bit_xor-zero v)
sum_products-dot v (x ∷ xs) (y ∷ ys) =
    sum_products-dot (bit_xor v (gf_mul x y)) xs ys ∙ bit_xor_assoc v (gf_mul x y) (dot xs ys)

pub dot-byte : (xs ys : List ℕ) → AllBytes xs → AllBytes ys → dot xs ys < 256
unfolding dot
dot-byte [] ys h k = omega arith
dot-byte (x ∷ xs) [] h k = omega arith
dot-byte (x ∷ xs) (y ∷ ys) (hx, h) (hy, k) =
    bit_xor-byte (gf_mul x y) (dot xs ys) (gf_mul-byte x y hx hy) (dot-byte xs ys h k)

pub entry-byte : (xs : List ℕ) (i : ℕ) → AllBytes xs → entry xs i < 256
unfolding entry
entry-byte [] i h = omega arith
entry-byte (x ∷ xs) zero (hx, h) = hx
entry-byte (x ∷ xs) (suc i) (hx, h) = entry-byte xs i h

pub xor-gf_mul :
    (a b c : ℕ)
    → a < 256
    → b < 256
    → c < 256
    → gf_mul (bit_xor a b) c ≡ bit_xor (gf_mul a c) (gf_mul b c)
xor-gf_mul a b c ha hb hc =
    gf_mul_comm (bit_xor a b) c
    ∙ gf_mul-xor c a b hc ha hb
    ∙ ap (λ x. bit_xor x (gf_mul c b)) (gf_mul_comm c a)
    ∙ ap (bit_xor (gf_mul a c)) (gf_mul_comm c b)

-- The last factor changes places with the one before it.
pub gf_mul-swap :
    (a b c : ℕ) → a < 256 → b < 256 → c < 256 → gf_mul (gf_mul a b) c ≡ gf_mul (gf_mul a c) b
gf_mul-swap a b c ha hb hc =
    gf_mul_assoc a b c ha hb hc
    ∙ ap (gf_mul a) (gf_mul_comm b c)
    ∙ sym (gf_mul_assoc a c b ha hc hb)

pub length-scale : (s : ℕ) (xs : List ℕ) → length (scale s xs) ≡ length xs
unfolding scale
length-scale s [] = refl
length-scale s (x ∷ xs) = ap suc (length-scale s xs)

pub scale-bytes : (s : ℕ) (xs : List ℕ) → s < 256 → AllBytes xs → AllBytes (scale s xs)
unfolding scale
scale-bytes s [] hs h = tt
scale-bytes s (x ∷ xs) hs (hx, h) = (gf_mul-byte x s hx hs, scale-bytes s xs hs h)

pub dot-scale :
    (s : ℕ) (xs ys : List ℕ)
    → s < 256
    → AllBytes xs
    → AllBytes ys
    → dot (scale s xs) ys ≡ gf_mul (dot xs ys) s
unfolding dot scale
dot-scale s [] ys hs h k = sym (zero-gf_mul s)
dot-scale s (x ∷ xs) [] hs h k = sym (zero-gf_mul s)
dot-scale s (x ∷ xs) (y ∷ ys) hs (hx, h) (hy, k) =
    ap (λ z. bit_xor z (dot (scale s xs) ys)) (gf_mul-swap x s y hx hs hy)
    ∙ ap (bit_xor (gf_mul (gf_mul x y) s)) (dot-scale s xs ys hs h k)
    ∙ sym (xor-gf_mul (gf_mul x y) (dot xs ys) s (gf_mul-byte x y hx hy) (dot-byte xs ys h k) hs)

pub entry-scale : (s : ℕ) (xs : List ℕ) (i : ℕ) → entry (scale s xs) i ≡ gf_mul (entry xs i) s
unfolding entry scale
entry-scale s [] i = sym (zero-gf_mul s)
entry-scale s (x ∷ xs) zero = refl
entry-scale s (x ∷ xs) (suc i) = entry-scale s xs i

pub length-add_multiple : (f : ℕ) (xs ps : List ℕ) → length (add_multiple f xs ps) ≡ length xs
unfolding add_multiple
length-add_multiple f [] ps = refl
length-add_multiple f (x ∷ xs) [] = refl
length-add_multiple f (x ∷ xs) (p ∷ ps) = ap suc (length-add_multiple f xs ps)

pub add_multiple-bytes :
    (f : ℕ) (xs ps : List ℕ) → f < 256 → AllBytes xs → AllBytes ps → AllBytes (add_multiple f xs ps)
unfolding add_multiple
add_multiple-bytes f [] ps hf h k = tt
add_multiple-bytes f (x ∷ xs) [] hf h k = h
add_multiple-bytes f (x ∷ xs) (p ∷ ps) hf (hx, h) (hp, k) =
    (bit_xor-byte x (gf_mul f p) hx (gf_mul-byte f p hf hp), add_multiple-bytes f xs ps hf h k)

pub dot-add_multiple :
    (f : ℕ) (xs ps ys : List ℕ)
    → length xs ≡ length ps
    → f < 256
    → AllBytes xs
    → AllBytes ps
    → AllBytes ys
    → dot (add_multiple f xs ps) ys ≡ bit_xor (dot xs ys) (gf_mul f (dot ps ys))
unfolding dot add_multiple
dot-add_multiple f [] [] ys n hf h k m = sym (ap (bit_xor 0) (gf_mul-zero f) ∙ zero-bit_xor 0)
dot-add_multiple f [] (p ∷ ps) ys n hf h k m = absurd (omega arith)
dot-add_multiple f (x ∷ xs) [] ys n hf h k m = absurd (omega arith)
dot-add_multiple f (x ∷ xs) (p ∷ ps) [] n hf h k m =
    sym (ap (bit_xor 0) (gf_mul-zero f) ∙ zero-bit_xor 0)
dot-add_multiple f (x ∷ xs) (p ∷ ps) (y ∷ ys) n hf (hx, h) (hp, k) (hy, m) =
    ap (λ z. bit_xor z (dot (add_multiple f xs ps) ys))
      (xor-gf_mul x (gf_mul f p) y hx (gf_mul-byte f p hf hp) hy
        ∙ ap (bit_xor (gf_mul x y)) (gf_mul_assoc f p y hf hp hy))
    ∙ ap (bit_xor (bit_xor (gf_mul x y) (gf_mul f (gf_mul p y))))
        (dot-add_multiple f xs ps ys (omega arith) hf h k m)
    ∙ xor-swap_middle (gf_mul x y) (gf_mul f (gf_mul p y)) (dot xs ys) (gf_mul f (dot ps ys))
    ∙ ap (bit_xor (bit_xor (gf_mul x y) (dot xs ys))) (
        sym (gf_mul-xor f (gf_mul p y) (dot ps ys) hf (gf_mul-byte p y hp hy) (dot-byte ps ys k m)))

pub entry-add_multiple :
    (f : ℕ) (xs ps : List ℕ) (i : ℕ)
    → length xs ≡ length ps
    → entry (add_multiple f xs ps) i ≡ bit_xor (entry xs i) (gf_mul f (entry ps i))
unfolding entry add_multiple
entry-add_multiple f [] [] i n = sym (ap (bit_xor 0) (gf_mul-zero f) ∙ zero-bit_xor 0)
entry-add_multiple f [] (p ∷ ps) i n = absurd (omega arith)
entry-add_multiple f (x ∷ xs) [] i n = absurd (omega arith)
entry-add_multiple f (x ∷ xs) (p ∷ ps) zero n = refl
entry-add_multiple f (x ∷ xs) (p ∷ ps) (suc i) n = entry-add_multiple f xs ps i (omega arith)

pub append-bytes : (xs ys : List ℕ) → AllBytes xs → AllBytes ys → AllBytes (xs ++ ys)
append-bytes [] ys h k = k
append-bytes (x ∷ xs) ys (hx, h) k = (hx, append-bytes xs ys h k)
