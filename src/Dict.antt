-- ===== src/Dict.antt =====
-- Python's `dict` with `str` or `bytes` keys, in insertion order: an assignment to a present key
-- keeps its place.
use suwappu_lattice_protocol.Prelude.{
  ℕ, ◌+◌, ◌≡◌, refl, false, Option, none, some, List, [], ◌∷◌, if◌then◌else◌, Bytes, bytes_eq,
  bytes_eq_refl, arith,
}

abbrev pub Dict {ℓ} : Type ℓ → Type ℓ
Dict V = List (Bytes × V)

module _ {ℓ} {V : Type ℓ} where
  -- d.get(k)
  unfoldable pub lookup : Bytes → Dict V → Option V
  lookup k [] = none
  lookup k ((j, v) ∷ d) = if bytes_eq j k then some v else lookup k d

  -- d[k] = v
  unfoldable pub insert : Bytes → V → Dict V → Dict V
  insert k v [] = (k, v) ∷ []
  insert k v ((j, w) ∷ d) = if bytes_eq j k then (j, v) ∷ d else (j, w) ∷ insert k v d

  -- d.pop(k, None); a dict holds a key once
  unfoldable pub remove : Bytes → Dict V → Dict V
  remove k [] = []
  remove k ((j, w) ∷ d) = if bytes_eq j k then d else (j, w) ∷ remove k d

  -- The sum of a number of each value.
  abbrev pub total : (V → ℕ) → Dict V → ℕ
  total f [] = 0
  total f ((k, v) ∷ d) = f v + total f d

  abbrev pub value_of : (V → ℕ) → Option V → ℕ
  value_of f none = 0
  value_of f (some v) = f v

  pub lookup-insert :
      (k j : Bytes) (v : V) (d : Dict V)
      → lookup j (insert k v d) ≡ (if bytes_eq k j then some v else lookup j d)
  unfolding lookup insert
  lookup-insert k j v [] = refl
  lookup-insert k j v ((i, w) ∷ d) = ground (arith, lookup-insert k j v d)

  pub lookup-insert_self : (k : Bytes) (v : V) (d : Dict V) → lookup k (insert k v d) ≡ some v
  lookup-insert_self k v d = rw (lookup-insert, bytes_eq_refl)

  pub lookup-remove_ne :
      (k j : Bytes) (d : Dict V) → bytes_eq k j ≡ false → lookup j (remove k d) ≡ lookup j d
  unfolding lookup remove
  lookup-remove_ne k j [] h = refl
  lookup-remove_ne k j ((i, w) ∷ d) h = ground (arith, lookup-remove_ne k j d)

  pub total-insert :
      (f : V → ℕ) (k : Bytes) (v : V) (d : Dict V)
      → total f (insert k v d) + value_of f (lookup k d) ≡ total f d + f v
  unfolding lookup insert
  total-insert f k v [] = omega arith
  total-insert f k v ((j, w) ∷ d) = ground (arith, total-insert f k v d)

  pub total-remove :
      (f : V → ℕ) (k : Bytes) (d : Dict V)
      → total f (remove k d) + value_of f (lookup k d) ≡ total f d
  unfolding lookup remove
  total-remove f k [] = omega arith
  total-remove f k ((j, w) ∷ d) = ground (arith, total-remove f k d)

pub ruleset dict_laws = (lookup-insert)
