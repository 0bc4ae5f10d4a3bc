-- ===== src/Encoding.antt =====
-- `CanonicalEncoder` (src/ltp/encoding.py). A method appends one part and the parts are joined in the
-- end; here a method gives the part that it appends, and `both` and `each` chain the parts. A `str`
-- is the bytes of its UTF-8 text. A float is the eight bytes that `struct.pack` makes of it.
pub mod Codes
pub mod Parts
use suwappu_lattice_protocol.Prelude.{
  ℕ, ◌/◌, ◌%◌, ◌^◌, Option, none, some, List, [], ◌∷◌, ◌++◌, length, ltb, if◌then◌else◌, Bytes,
  Result, ok, raise, value_error, struct_error, ◌>>=◌,
}
use suwappu_lattice_protocol.Merkle.Sth.{u64_bytes}

unfoldable pub uint8 : ℕ → Result Bytes
uint8 value = if ltb value 256 then ok (value ∷ []) else raise value_error

-- `struct.pack(">I", n)`
abbrev pub u32_bytes : ℕ → Bytes
u32_bytes n = (n / 2 ^ 24 % 256) ∷ (n / 2 ^ 16 % 256) ∷ (n / 2 ^ 8 % 256) ∷ (n % 256) ∷ []

unfoldable pub uint32 : ℕ → Result Bytes
uint32 value = if ltb value (2 ^ 32) then ok (u32_bytes value) else raise value_error

unfoldable pub uint64 : ℕ → Result Bytes
uint64 value = if ltb value (2 ^ 64) then ok (u64_bytes value) else raise value_error

-- One method after another.
unfoldable pub both {ℓ κ} :
    {A : Type ℓ} {B : Type κ} → (A → Result Bytes) → (B → Result Bytes) → A × B → Result Bytes
both w v (a, b) = w a >>= λ p. v b >>= λ q. ok (p ++ q)

-- A method on every member of a list, in order.
unfoldable pub each {ℓ} : {A : Type ℓ} → (A → Result Bytes) → List A → Result Bytes
each w [] = ok []
each w (a ∷ xs) = w a >>= λ p. each w xs >>= λ q. ok (p ++ q)

-- A length, for which `struct.pack` raises where it does not fit.
unfoldable pub pack_length : ℕ → Result Bytes
pack_length n = if ltb n (2 ^ 32) then ok (u32_bytes n) else raise struct_error

unfoldable pub length_prefixed_bytes : Bytes → Result Bytes
length_prefixed_bytes value = pack_length (length value) >>= λ n. ok (n ++ value)

abbrev pub string : Bytes → Result Bytes
string raw = length_prefixed_bytes raw

unfoldable pub optional {ℓ} : {A : Type ℓ} → (A → Result Bytes) → Option A → Result Bytes
optional w none = ok (0 ∷ [])
optional w (some a) = w a >>= λ p. ok (1 ∷ p)

abbrev pub optional_bytes : Option Bytes → Result Bytes
optional_bytes = optional length_prefixed_bytes

abbrev pub optional_string : Option Bytes → Result Bytes
optional_string = optional string

abbrev pub optional_uint64 : Option ℕ → Result Bytes
optional_uint64 = optional uint64

-- A count and the members: of a set of strings, its sorted members.
unfoldable pub counted {ℓ} : {A : Type ℓ} → (A → Result Bytes) → List A → Result Bytes
counted w xs = uint32 (length xs) >>= λ n. each w xs >>= λ p. ok (n ++ p)

-- The tag, which must not be empty, and the parts.
unfoldable pub finalize : Bytes → Result Bytes → Result Bytes
finalize [] parts = raise value_error
finalize (t ∷ tag) parts = parts >>= λ p. ok ((t ∷ tag) ++ p)
