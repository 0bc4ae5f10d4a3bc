-- ===== src/Galois.antt =====
-- The field GF(256) of `ErasureCoder` (src/ltp/erasure.py): its tables, multiplication and inverse.
-- The operators `^`, `&` of the code are `bit_xor` and `bit_and`; a table is a list.
pub mod Xor
pub mod Tables
pub mod Field
use Prim.Native.Nat.{bit_and, bit_xor}
use suwappu_lattice_protocol.Prelude.{
  ℕ, zero, suc, ◌+◌, ◌-◌, ◌*◌, ◌/◌, ◌%◌, ◌^◌, Bool, List, [], ◌∷◌, replicate, ◌==◌, ◌||◌,
  if◌then◌else◌, Result, ok, raise, assertion_error,
}

-- The entry of a table or a row, or 0 past its end.
unfoldable pub entry : List ℕ → ℕ → ℕ
entry [] i = 0
entry (x ∷ xs) zero = x
entry (x ∷ xs) (suc i) = entry xs i

unfoldable pub set_entry : List ℕ → ℕ → ℕ → List ℕ
set_entry [] i v = []
set_entry (x ∷ xs) zero v = v ∷ xs
set_entry (x ∷ xs) (suc i) v = x ∷ set_entry xs i v

pub record GfTables : Type 0 where
  pub gf_exp : List ℕ
  pub gf_log : List ℕ

-- `x <<= 1`, reduced by `0x11D`
unfoldable pub shift_reduce : ℕ → ℕ
shift_reduce x = if bit_and (x * 2) 0x100 == 0 then x * 2 else bit_xor (x * 2) 0x11D

-- The first loop of `_init_gf`: rounds to go, the index and the power.
unfoldable pub fill : ℕ → ℕ → ℕ → GfTables → GfTables
fill zero i x t = t
fill (suc n) i x t =
    fill n (suc i) (shift_reduce x)
      (record { gf_exp = set_entry t.gf_exp i x; gf_log = set_entry t.gf_log x i })

-- The second one.
unfoldable pub repeat_powers : ℕ → ℕ → List ℕ → List ℕ
repeat_powers zero i e = e
repeat_powers (suc n) i e = repeat_powers n (suc i) (set_entry e i (entry e (i - 255)))

unfoldable pub init_gf : GfTables
init_gf =
    let t = fill 255 0 1 (record { gf_exp = replicate 512 0; gf_log = replicate 256 0 }) in
    record { gf_exp = repeat_powers 257 255 t.gf_exp; gf_log = set_entry t.gf_log 0 0 }

unfoldable pub gf_mul : ℕ → ℕ → ℕ
gf_mul a b =
    if (a == 0) || (b == 0)
    then 0
    else entry init_gf.gf_exp (entry init_gf.gf_log a + entry init_gf.gf_log b)

unfoldable pub gf_inv : ℕ → Result ℕ
gf_inv a =
    if a == 0
    then raise assertion_error
    else ok (entry init_gf.gf_exp (255 - entry init_gf.gf_log a))
