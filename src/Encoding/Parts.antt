-- ===== src/Encoding/Parts.antt =====
-- Encodings made of parts: pairs, lists with a count, optional values.
use suwappu_lattice_protocol.Prelude.{
  suc, ◌≡◌, refl, ap, ◌∙◌, sym, Option, none, some, List, [], ◌∷◌, ◌++◌, map, length, Bytes, Result,
  ok, ok-inj, ◌>>=◌, bind-eq_ok, arith,
}
use mathlib.Core.List.{append_assoc}
use suwappu_lattice_protocol.Encoding.{uint32, both, each, optional, counted}
use suwappu_lattice_protocol.Encoding.Codes.{IsCode, uint32-IsCode}

-- The rest behind a first part, where two encodings begin the same bytes.
behind :
    (m p n q c d x y : Bytes)
    → m ++ p ≡ c
    → n ++ q ≡ d
    → c ++ x ≡ d ++ y
    → m ++ (p ++ x) ≡ n ++ (q ++ y)
behind m p n q c d x y hc hd e =
    sym (append_assoc m p x)
    ∙ ap (λ z. z ++ x) hc
    ∙ e
    ∙ ap (λ z. z ++ y) (sym hd)
    ∙ append_assoc n q y

module _ {ℓ κ} {A : Type ℓ} {B : Type κ} (w : A → Result Bytes) (v : B → Result Bytes)
    (wc : IsCode w) (vc : IsCode v) where
  pub both-IsCode : IsCode (both w v)
  unfolding both
  both-IsCode = record {
    front = λ (a, b) (c, d) p q x y ha hc e.
        let (m, am, pm) = bind-eq_ok (w a) (λ p. v b >>= λ q. ok (p ++ q)) ha in
        let (r, br, pr) = bind-eq_ok (v b) (λ q. ok (m ++ q)) pm in
        let (n, cn, pn) = bind-eq_ok (w c) (λ p. v d >>= λ q. ok (p ++ q)) hc in
        let (s, ds, ps) = bind-eq_ok (v d) (λ q. ok (n ++ q)) pn in
        let (same, rest) =
          wc.front a c m n (r ++ x) (s ++ y) am cn
            (behind m r n s p q x y (ok-inj pr) (ok-inj ps) e) in
        let (same', rest') = vc.front b d r s x y br ds rest in (λ i. (same i, same' i), rest');
  }

module _ {ℓ} {A : Type ℓ} (w : A → Result Bytes) (wc : IsCode w) where
  each-front :
      (xs ys : List A) (p q x y : Bytes)
      → length xs ≡ length ys
      → each w xs ≡ ok p
      → each w ys ≡ ok q
      → p ++ x ≡ q ++ y
      → (xs ≡ ys) × (x ≡ y)
  unfolding each
  each-front [] [] p q x y n hp hq e = (refl, rw (sym (ok-inj hp), sym (ok-inj hq)) at e)
  each-front [] (b ∷ ys) p q x y n hp hq e = absurd (omega arith)
  each-front (a ∷ xs) [] p q x y n hp hq e = absurd (omega arith)
  each-front (a ∷ xs) (b ∷ ys) p q x y n hp hq e =
      let (m, am, pm) = bind-eq_ok (w a) (λ p. each w xs >>= λ q. ok (p ++ q)) hp in
      let (r, br, pr) = bind-eq_ok (each w xs) (λ q. ok (m ++ q)) pm in
      let (n', cn, pn) = bind-eq_ok (w b) (λ p. each w ys >>= λ q. ok (p ++ q)) hq in
      let (s, ds, ps) = bind-eq_ok (each w ys) (λ q. ok (n' ++ q)) pn in
      let (same, rest) =
        wc.front a b m n' (r ++ x) (s ++ y) am cn
          (behind m r n' s p q x y (ok-inj pr) (ok-inj ps) e) in
      let (same', rest') = each-front xs ys r s x y (omega arith) br ds rest in
      (λ i. same i ∷ same' i, rest')

  pub counted-IsCode : IsCode (counted w)
  unfolding counted
  counted-IsCode = record {
    front = λ xs ys p q x y hx hy e.
        let (m, am, pm) =
          bind-eq_ok (uint32 (length xs)) (λ n. each w xs >>= λ p. ok (n ++ p)) hx in
        let (r, br, pr) = bind-eq_ok (each w xs) (λ p. ok (m ++ p)) pm in
        let (n, cn, pn) =
          bind-eq_ok (uint32 (length ys)) (λ n. each w ys >>= λ p. ok (n ++ p)) hy in
        let (s, ds, ps) = bind-eq_ok (each w ys) (λ p. ok (n ++ p)) pn in
        let (same, rest) =
          uint32-IsCode.front (length xs) (length ys) m n (r ++ x) (s ++ y) am cn
            (behind m r n s p q x y (ok-inj pr) (ok-inj ps) e) in
        each-front xs ys r s x y same br ds rest;
  }

  pub optional-IsCode : IsCode (optional w)
  unfolding optional
  optional-IsCode = record { front = option_front }
    where
      option_front :
          (a b : Option A) (p q x y : Bytes)
          → optional w a ≡ ok p
          → optional w b ≡ ok q
          → p ++ x ≡ q ++ y
          → (a ≡ b) × (x ≡ y)
      option_front none none p q x y ha hb e =
          let f : 0 ∷ x ≡ 0 ∷ y = rw (sym (ok-inj ha), sym (ok-inj hb)) at e in (refl, cc)
      option_front none (some b) p q x y ha hb e =
          let (n, bn, pn) = bind-eq_ok (w b) (λ p. ok (1 ∷ p)) hb in
          let f : 0 ∷ x ≡ 1 ∷ (n ++ y) = rw (sym (ok-inj ha), sym (ok-inj pn)) at e in absurd (cc)
      option_front (some a) none p q x y ha hb e =
          let (m, am, pm) = bind-eq_ok (w a) (λ p. ok (1 ∷ p)) ha in
          let f : 1 ∷ (m ++ x) ≡ 0 ∷ y = rw (sym (ok-inj pm), sym (ok-inj hb)) at e in absurd (cc)
      option_front (some a) (some b) p q x y ha hb e =
          let (m, am, pm) = bind-eq_ok (w a) (λ p. ok (1 ∷ p)) ha in
          let (n, bn, pn) = bind-eq_ok (w b) (λ p. ok (1 ∷ p)) hb in
          let f : 1 ∷ (m ++ x) ≡ 1 ∷ (n ++ y) = rw (sym (ok-inj pm), sym (ok-inj pn)) at e in
          let (same, rest) = wc.front a b m n x y am bn cc in (ap some same, rest)

-- A part of every member of a list.
module _ {ℓ κ} {A : Type ℓ} {B : Type κ} (w : B → Result Bytes) (f : A → B) where
  each-map : (xs : List A) → each (λ a. w (f a)) xs ≡ each w (map f xs)
  unfolding each
  each-map [] = refl
  each-map (a ∷ xs) = rw (each-map xs) refl

  count_map : (xs : List A) → length xs ≡ length (map f xs)
  count_map [] = refl
  count_map (a ∷ xs) = ap suc (count_map xs)

  pub counted-map : (xs : List A) → counted (λ a. w (f a)) xs ≡ counted w (map f xs)
  unfolding counted
  counted-map xs = rw (each-map xs, count_map xs) refl
