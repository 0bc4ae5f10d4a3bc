-- ===== src/Erasure/Ranges.antt =====
-- Maps over a range.
use suwappu_lattice_protocol.Prelude.{
  ℕ, zero, suc, ◌+◌, ◌<◌, ◌≡◌, refl, sym, ap, ◌∙◌, [], ◌∷◌, map, length, arith, Bytes, some,
  get_elem?,
}
use suwappu_lattice_protocol.Galois.{entry}
use suwappu_lattice_protocol.Erasure.{range}
use suwappu_lattice_protocol.Erasure.Rows.{AllBytes}

pub length-range : (s n : ℕ) → length (range s n) ≡ n
unfolding range
length-range s zero = refl
length-range s (suc n) = ap suc (length-range (suc s) n)

pub length-map-range : {A : Type 0} → (f : ℕ → A) (s n : ℕ) → length (map f (range s n)) ≡ n
unfolding range
length-map-range f s zero = refl
length-map-range f s (suc n) = ap suc (length-map-range f (suc s) n)

pub entry-map-range : (f : ℕ → ℕ) (s n j : ℕ) → j < n → entry (map f (range s n)) j ≡ f (s + j)
unfolding range entry
entry-map-range f s zero j h = absurd (omega arith)
entry-map-range f s (suc n) zero h = ap f (omega arith)
entry-map-range f s (suc n) (suc j) h =
    entry-map-range f (suc s) n j (omega arith) ∙ ap f (omega arith)

pub map-range-bytes : (f : ℕ → ℕ) (s n : ℕ) → ((j : ℕ) → f j < 256) → AllBytes (map f (range s n))
unfolding range
map-range-bytes f s zero h = tt
map-range-bytes f s (suc n) h = (h s, map-range-bytes f (suc s) n h)

-- A list is known by its entries.
pub map-range-entries :
    (f : ℕ → ℕ) (s n : ℕ) (c : Bytes)
    → length c ≡ n
    → ((j : ℕ) → j < n → f (s + j) ≡ entry c j)
    → map f (range s n) ≡ c
unfolding range entry
map-range-entries f s zero [] e h = refl
map-range-entries f s zero (x ∷ c) e h = absurd (omega arith)
map-range-entries f s (suc n) [] e h = absurd (omega arith)
map-range-entries f s (suc n) (x ∷ c) e h =
    let z : s + 0 ≡ s = omega arith in
    let first : f s ≡ x = ap f (sym z) ∙ h 0 (omega arith) in
    let rest =
      map-range-entries f (suc s) n c (omega arith)
        (λ j lt. let m : suc s + j ≡ s + suc j = omega arith in ap f m ∙ h (suc j) (omega arith)) in
    λ i. first i ∷ rest i

pub get_elem?-map-range :
    (g : ℕ → Bytes) (s n i : ℕ) (t : Bytes)
    → get_elem? (map g (range s n)) i ≡ some t
    → (i < n) × (t ≡ g (s + i))
unfolding range
get_elem?-map-range g s zero i t e = absurd (cc)
get_elem?-map-range g s (suc n) zero t e =
    let z : s ≡ s + 0 = omega arith in let f : g s ≡ t = cc in (omega arith, sym f ∙ ap g z)
get_elem?-map-range g s (suc n) (suc i) t e =
    let (lt, f) = get_elem?-map-range g (suc s) n i t e in
    let z : suc s + i ≡ s + suc i = omega arith in (omega (arith, lt), f ∙ ap g z)
