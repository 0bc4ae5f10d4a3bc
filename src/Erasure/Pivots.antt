-- ===== src/Erasure/Pivots.antt =====
-- The search for a pivot, and what clearing a column does.
use Prim.Native.Nat.{bit_xor}
use suwappu_lattice_protocol.Prelude.{
  ℕ, suc, ◌≡◌, ◌≢◌, refl, sym, ap, ◌∙◌, Option, none, some, List, [], ◌∷◌, ◌++◌, map, length,
  ==-cases, inl, inr, arith,
}
use suwappu_lattice_protocol.Galois.{entry, gf_mul}
use suwappu_lattice_protocol.Galois.Xor.{bit_xor_self, bit_xor-zero}
use suwappu_lattice_protocol.Galois.Field.{zero-gf_mul, gf_mul-zero, gf_mul_comm, one-gf_mul}
use suwappu_lattice_protocol.Erasure.{keep_above, swap_pivot, pivot, clear}
use suwappu_lattice_protocol.Erasure.Rows.{
  AllBytes, dot, entry-byte, length-add_multiple, add_multiple-bytes, dot-add_multiple,
  entry-add_multiple,
}

abbrev pub All : (List ℕ → Type 0) → List (List ℕ) → Type 0
All P [] = Unit
All P (r ∷ rows) = P r × All P rows

pub All-map :
    (P Q : List ℕ → Type 0) (f : List ℕ → List ℕ) (rows : List (List ℕ))
    → ((r : List ℕ) → P r → Q (f r))
    → All P rows
    → All Q (map f rows)
All-map P Q f [] g h = tt
All-map P Q f (r ∷ rows) g (p, h) = (g r p, All-map P Q f rows g h)

pub All-append :
    (P : List ℕ → Type 0) (rs ss : List (List ℕ)) → All P rs → All P ss → All P (rs ++ ss)
All-append P [] ss h k = k
All-append P (r ∷ rs) ss (p, h) k = (p, All-append P rs ss h k)

pub All-and :
    (P Q : List ℕ → Type 0) (rows : List (List ℕ))
    → All P rows
    → All Q rows
    → All (λ r. P r × Q r) rows
All-and P Q [] h k = tt
All-and P Q (r ∷ rows) (p, h) (q, k) = ((p, q), All-and P Q rows h k)

-- Rows are a pivot and others, in some order.
pub record Splits (rows : List (List ℕ)) (p : List ℕ) (others : List (List ℕ)) : Type 1 where
  pub count : length rows ≡ suc (length others)
  pub forth : (P : List ℕ → Type 0) → All P rows → P p × All P others
  pub back : (P : List ℕ → Type 0) → P p → All P others → All P rows

-- What a search finds.
pub data Found (col : ℕ) (rows : List (List ℕ)) : Option (List ℕ × List (List ℕ)) → Type 1 where
  no_pivot : All (λ r. entry r col ≡ 0) rows → Found col rows none
  pivot_at :
      {p : List ℕ} {others : List (List ℕ)}
      → entry p col ≢ 0
      → Splits rows p others
      → Found col rows (some (p, others))

keep_above-Found :
    (col : ℕ) (r s : List ℕ) (rows : List (List ℕ)) (o : Option (List ℕ × List (List ℕ)))
    → entry s col ≡ 0
    → Found col (r ∷ rows) o
    → Found col (r ∷ s ∷ rows) (keep_above s o)
unfolding keep_above
keep_above-Found col r s rows none e (no_pivot (h, hs)) = no_pivot (h, (e, hs))
keep_above-Found col r s rows (some (p, others)) e (pivot_at ne split) = pivot_at ne (record {
  count = let c = split.count in omega (arith, c);
  forth = λ P (hr, (hs, h)). let (hp, ho) = split.forth P (hr, h) in (hp, (hs, ho));
  back = λ P hp (hs, ho). let (hr, h) = split.back P hp ho in (hr, (hs, h));
})

swap_pivot-Found :
    (col : ℕ) (r : List ℕ) (rows : List (List ℕ))
    → entry r col ≡ 0
    → Found col (r ∷ rows) (swap_pivot col r rows)
unfolding swap_pivot
swap_pivot-Found col r [] e = no_pivot (e, tt)
swap_pivot-Found col r (s ∷ rows) e = elim (==-cases (entry s col) 0) [
  | inl (z, b) ↦
      rw b (keep_above-Found col r s rows (swap_pivot col r rows) z (swap_pivot-Found col r rows e))
  | inr (nz, b) ↦ rw b (
      pivot_at nz (record {
        count = refl;
        forth = λ P (hr, (hs, h)). (hs, (hr, h));
        back = λ P hs (hr, h). (hr, (hs, h));
      }))
]

pub pivot-Found : (col : ℕ) (rows : List (List ℕ)) → Found col rows (pivot col rows)
unfolding pivot
pivot-Found col [] = no_pivot tt
pivot-Found col (r ∷ rows) = elim (==-cases (entry r col) 0) [
  | inl (z, b) ↦ rw b (swap_pivot-Found col r rows z)
  | inr (nz, b) ↦
      rw b (pivot_at nz (record { count = refl; forth = λ P h. h; back = λ P h k. (h, k) }))
]

-- Rows of one length, of bytes.
abbrev pub Fits : ℕ → List ℕ → Type 0
Fits n r = (length r ≡ n) × AllBytes r

pub clear-Fits : (n col : ℕ) (p r : List ℕ) → Fits n p → Fits n r → Fits n (clear col p r)
unfolding clear
clear-Fits n col p r (lp, bp) (lr, br) = elim (==-cases (entry r col) 0) [
  | inl (z, b) ↦ rw b (lr, br)
  | inr (nz, b) ↦ rw b (
    length-add_multiple (entry r col) r p ∙ lr,
    add_multiple-bytes (entry r col) r p (entry-byte r col br) br bp,
  )
]

-- A row that the pivot row is orthogonal with is so before and after.
pub dot-clear_row :
    (n col : ℕ) (p r w : List ℕ)
    → Fits n p
    → Fits n r
    → AllBytes w
    → dot p w ≡ 0
    → dot (clear col p r) w ≡ dot r w
unfolding clear
dot-clear_row n col p r w (lp, bp) (lr, br) bw h = elim (==-cases (entry r col) 0) [
  | inl (z, b) ↦ rw b refl
  | inr (nz, b) ↦ rw b (
      dot-add_multiple (entry r col) r p w (lr ∙ sym lp) (entry-byte r col br) br bp bw
      ∙ ap (λ x. bit_xor (dot r w) (gf_mul (entry r col) x)) h
      ∙ ap (bit_xor (dot r w)) (gf_mul-zero (entry r col))
      ∙ bit_xor-zero (dot r w))
]

entry-clear :
    (n col j : ℕ) (p r : List ℕ)
    → Fits n p
    → Fits n r
    → entry (clear col p r) j ≡ bit_xor (entry r j) (gf_mul (entry r col) (entry p j))
unfolding clear
entry-clear n col j p r (lp, bp) (lr, br) = elim (==-cases (entry r col) 0) [
  | inl (z, b) ↦ rw b (
      sym (
        ap (λ x. bit_xor (entry r j) (gf_mul x (entry p j))) z
        ∙ ap (bit_xor (entry r j)) (zero-gf_mul (entry p j))
        ∙ bit_xor-zero (entry r j)))
  | inr (nz, b) ↦ rw b (entry-add_multiple (entry r col) r p j (lr ∙ sym lp))
]

-- Where the pivot row is zero nothing changes.
pub entry-clear_zero :
    (n col j : ℕ) (p r : List ℕ)
    → Fits n p
    → Fits n r
    → entry p j ≡ 0
    → entry (clear col p r) j ≡ entry r j
entry-clear_zero n col j p r fp fr z =
    entry-clear n col j p r fp fr
    ∙ ap (λ x. bit_xor (entry r j) (gf_mul (entry r col) x)) z
    ∙ ap (bit_xor (entry r j)) (gf_mul-zero (entry r col))
    ∙ bit_xor-zero (entry r j)

-- In the column of a pivot that is one the row gets a zero.
pub entry-clear_pivot :
    (n col : ℕ) (p r : List ℕ)
    → Fits n p
    → Fits n r
    → entry p col ≡ 1
    → entry (clear col p r) col ≡ 0
entry-clear_pivot n col p r fp fr one =
    entry-clear n col col p r fp fr
    ∙ ap (λ x. bit_xor (entry r col) (gf_mul (entry r col) x)) one
    ∙ ap (bit_xor (entry r col))
        (gf_mul_comm (entry r col) 1 ∙ one-gf_mul (entry r col) (entry-byte r col fr.1))
    ∙ bit_xor_self (entry r col)
