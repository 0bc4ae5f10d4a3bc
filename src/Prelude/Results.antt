-- ===== src/Prelude/Results.antt =====
-- Byte strings and their equality, and the results of Python calls that may raise.
use Prim.Native.Nat.{ℕ}
use mathlib.Core.Path.{◌≡◌, refl}
use mathlib.Core.Bool.{Bool, true, false}
use mathlib.Core.List.{List, [], ◌∷◌}
use native.Mathlib.Decide.{ℕ_discrete}
use native.Mathlib.Omega.{arith}

-- `bytes`, a number below 256 for each byte; a `str` is the list of its code points.
abbrev pub Bytes : Type 0
Bytes = List ℕ

unfoldable pub bytes_discrete : Discrete Bytes
unfolding ℕ_discrete
bytes_discrete [] [] = yes refl
bytes_discrete [] (y ∷ ys) = no (λ e. cc)
bytes_discrete (x ∷ xs) [] = no (λ e. cc)
bytes_discrete (x ∷ xs) (y ∷ ys) = elim (ℕ_discrete x y) [
  | yes p ↦ elim (bytes_discrete xs ys) [ yes q ↦ yes (cc) | no q ↦ no (λ e. q (cc)) ]
  | no p ↦ no (λ e. p (cc))
]

-- `a == b` on `bytes` and `str`
abbrev pub bytes_eq : Bytes → Bytes → Bool
bytes_eq a b = elim (bytes_discrete a b) [ yes _ ↦ true | no _ ↦ false ]

-- The exceptions that the modelled code raises.
pub data Error : Type 0 where
  value_error key_error index_error assertion_error recursion_error struct_error ledger_error
        deposit_error runtime_error :
      Error

-- What a call gives: it raises an exception, or it returns a value.
pub data Result {ℓ} (A : Type ℓ) : Type ℓ where
  raise : Error → Result A
  ok : A → Result A

pub bytes_eq_refl : (a : Bytes) → bytes_eq a a ≡ true
bytes_eq_refl a = ground arith

module _ {ℓ κ} {A : Type ℓ} {B : Type κ} where
  infixl 5 ◌>>=◌
  -- The rest of the caller runs if the call returns.
  abbrev pub ◌>>=◌ : Result A → (A → Result B) → Result B
  raise e >>= rest = raise e
  ok a >>= rest = rest a

  -- A caller that returned: what the call returned, and the rest of the caller on it.
  pub bind-eq_ok :
      (call : Result A) (rest : A → Result B) {b : B}
      → (call >>= rest) ≡ ok b
      → (a : A) × (call ≡ ok a) × (rest a ≡ ok b)
  bind-eq_ok (raise e) rest h = cc
  bind-eq_ok (ok a) rest h = (a, refl, h)

pub bytes_eq→eq : (a b : Bytes) → bytes_eq a b ≡ true → a ≡ b
bytes_eq→eq a b h = ground arith

pub ok-inj {ℓ} : {A : Type ℓ} {a b : A} → ok a ≡ ok b → a ≡ b
ok-inj e = cc
