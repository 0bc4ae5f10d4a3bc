-- ===== src/Merkle/Sth.antt =====
-- sth.py (src/ltp/merkle_log/sth.py): signed tree heads and their signable payload.
-- `timestamp` is the eight bytes that `struct.pack(">d", …)` makes of the clock's float.
-- ML-DSA is a library's: its two operations are a parameter.
pub mod Payload
use suwappu_lattice_protocol.Prelude.{
  Option, none, some, ℕ, ◌+◌, ◌*◌, ◌/◌, ◌%◌, ◌^◌, ◌<◌, ◌≡◌, Bool, List, [], ◌∷◌, ◌++◌, ltb,
  if◌then◌else◌, Bytes, Result, ok, raise, struct_error, ◌>>=◌,
}

pub record Mldsa : Type 0 where
  pub sign : Bytes → Bytes → Bytes
  pub verify : Bytes → Bytes → Bytes → Bool

-- The bytes of a key, or a `KeyPair` (src/ltp/keypair.py): how its hardware module signs, where it is
-- backed by one, and its `sk`.
pub data SigningKey : Type 0 where
  raw_key : Bytes → SigningKey
  key_pair : Option (Bytes → Bytes) → Bytes → SigningKey

pub record SignedTreeHead : Type 0 where
  pub sequence : ℕ
  pub tree_size : ℕ
  pub timestamp : Bytes
  pub root_hash : Bytes
  pub operator_vk : Bytes
  pub signature : Bytes

-- `struct.pack(">Q", n)`
abbrev pub u64_bytes : ℕ → Bytes
u64_bytes n =
    (n / 2 ^ 56 % 256)
    ∷ (n / 2 ^ 48 % 256)
    ∷ (n / 2 ^ 40 % 256)
    ∷ (n / 2 ^ 32 % 256)
    ∷ (n / 2 ^ 24 % 256)
    ∷ (n / 2 ^ 16 % 256)
    ∷ (n / 2 ^ 8 % 256)
    ∷ (n % 256)
    ∷ []

unfoldable pub pack_u64 : ℕ → Result Bytes
pack_u64 n = if ltb n (2 ^ 64) then ok (u64_bytes n) else raise struct_error

unfoldable pub payload : ℕ → ℕ → Bytes → Bytes → Result Bytes
unfolding pack_u64
payload sequence tree_size timestamp root_hash = do
  a ← pack_u64 sequence
  b ← pack_u64 tree_size
  ok (a ++ (b ++ (timestamp ++ root_hash)))

unfoldable pub signable_payload : SignedTreeHead → Result Bytes
unfolding payload
signable_payload s = payload s.sequence s.tree_size s.timestamp s.root_hash

module _ (dsa : Mldsa) where
  -- `KeyPair.sign`, or `MLDSA.sign` for bytes
  unfoldable pub sign_message : SigningKey → Bytes → Bytes
  sign_message (raw_key sk) message = dsa.sign sk message
  sign_message (key_pair none sk) message = dsa.sign sk message
  sign_message (key_pair (some hsm) sk) message = hsm message

  unfoldable pub verify : SignedTreeHead → Result Bool
  unfolding signable_payload
  verify s = do message ← signable_payload s; ok (dsa.verify s.operator_vk message s.signature)

  unfoldable pub sign : ℕ → ℕ → Bytes → Bytes → SigningKey → Bytes → Result SignedTreeHead
  unfolding payload
  sign sequence tree_size root_hash operator_vk operator_sk now = do
    message ← payload sequence tree_size now root_hash
    ok (record {
      sequence = sequence;
      tree_size = tree_size;
      timestamp = now;
      root_hash = root_hash;
      operator_vk = operator_vk;
      signature = sign_message operator_sk message;
    })
