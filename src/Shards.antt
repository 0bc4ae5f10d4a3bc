-- ===== src/Shards.antt =====
-- The class `ShardEncryptor` (src/ltp/shards.py) and `AEAD` (src/ltp/primitives.py), which it calls.
-- HMAC-SHA256 and the cipher of libsodium are parameters. An entity's id is given by its UTF-8 bytes,
-- the key that the operating system draws is an argument, and a set is a list without repetition.
pub mod Keys
pub mod Sealing
use suwappu_lattice_protocol.Prelude.{
  ℕ, ◌+◌, ◌/◌, ◌%◌, ◌^◌, Bool, true, false, not, ◌||◌, Option, none, some, List, [], ◌∷◌, ◌++◌,
  length, take, replicate, ltb, ◌==◌, if◌then◌else◌, Bytes, bytes_eq, Result, ok, raise,
  value_error, runtime_error, struct_error, ◌>>=◌,
}
use suwappu_lattice_protocol.Encoding.{pack_length}

pub record KeyTracker : Type 0 where
  pub issued_ceks : List Bytes
  pub issued_ceks_order : List Bytes

abbrev pub reset_poc_state : KeyTracker
reset_poc_state = record { issued_ceks = []; issued_ceks_order = [] }

unfoldable pub cek_tracking_limit : ℕ
cek_tracking_limit = 100_000

unfoldable pub is_issued : Bytes → List Bytes → Bool
is_issued x [] = false
is_issued x (y ∷ ys) = bytes_eq y x || is_issued x ys

unfoldable pub discard : Bytes → List Bytes → List Bytes
discard x [] = []
discard x (y ∷ ys) = let rest = discard x ys in if bytes_eq x y then rest else y ∷ rest

-- `popleft` and `discard` of what it gives
unfoldable pub forget_oldest : List Bytes → List Bytes → KeyTracker
forget_oldest issued [] = record { issued_ceks = issued; issued_ceks_order = [] }
forget_oldest issued (oldest ∷ order) = record {
  issued_ceks = discard oldest issued;
  issued_ceks_order = order;
}

unfoldable pub generate_cek : KeyTracker → Bytes → KeyTracker × Result Bytes
generate_cek t cek =
    if is_issued cek t.issued_ceks
    then (t, raise runtime_error)
    else if ltb cek_tracking_limit (length (t.issued_ceks_order ++ (cek ∷ [])))
    then (forget_oldest (cek ∷ t.issued_ceks) (t.issued_ceks_order ++ (cek ∷ [])), ok cek)
    else (
      record {
        issued_ceks = cek ∷ t.issued_ceks;
        issued_ceks_order = t.issued_ceks_order ++ (cek ∷ []);
      },
      ok cek,
    )

unfoldable pub validate_cek : Bytes → Result {0} Unit
validate_cek cek =
    if not (length cek == 32)
    then raise value_error
    else if bytes_eq cek (replicate 32 0)
    then raise value_error
    else if bytes_eq cek (replicate 32 255)
    then raise value_error
    else ok tt

unfoldable pub aad : Bytes → ℕ → Result Bytes
aad entity_id shard_index = pack_length shard_index >>= λ index. ok (entity_id ++ index)

-- `b"ETP-SHARD-NONCE-v1"`
abbrev pub hkdf_salt : Bytes
hkdf_salt =
    69 ∷ 84 ∷ 80 ∷ 45 ∷ 83 ∷ 72 ∷ 65 ∷ 82 ∷ 68 ∷ 45 ∷ 78 ∷ 79 ∷ 78 ∷ 67 ∷ 69 ∷ 45 ∷ 118 ∷ 49 ∷ []

abbrev pub nonce_size : ℕ
nonce_size = 24

abbrev pub tag_size : ℕ
tag_size = 16

-- The functions of libsodium and HMAC that the code calls: the first two take the text, the
-- associated data, the nonce and the key; the second has no result where it raises.
pub record Crypto : Type 0 where
  pub nacl_encrypt : Bytes → Option Bytes → Bytes → Bytes → Bytes
  pub nacl_decrypt : Bytes → Option Bytes → Bytes → Bytes → Option Bytes
  pub hmac : Bytes → Bytes → Bytes

-- `aad or None`
unfoldable pub or_none : Bytes → Option Bytes
or_none [] = none
or_none (x ∷ xs) = some (x ∷ xs)

unfoldable pub opened : Option Bytes → Result Bytes
opened none = raise value_error
opened (some plaintext) = ok plaintext

module _ (c : Crypto) where
  unfoldable pub encrypt : Bytes → Bytes → Bytes → Bytes → Result Bytes
  encrypt key plaintext nonce extra =
      let ct = c.nacl_encrypt plaintext (or_none extra) nonce key in
      if not (length nonce == nonce_size)
      then raise value_error
      else if not (length ct == length plaintext + tag_size)
      then raise runtime_error
      else ok ct

  unfoldable pub decrypt : Bytes → Bytes → Bytes → Bytes → Result Bytes
  decrypt key ciphertext_with_tag nonce extra =
      if not (length nonce == nonce_size)
      then raise value_error
      else opened (c.nacl_decrypt ciphertext_with_tag (or_none extra) nonce key)

  unfoldable pub extract_prk : Bytes → Bytes
  extract_prk cek = c.hmac hkdf_salt cek

  unfoldable pub nonce : Bytes → Bytes → ℕ → Result Bytes
  nonce cek entity_id shard_index = pack_length shard_index >>= λ index.
      ok (take nonce_size (c.hmac (extract_prk cek) (entity_id ++ (index ++ (1 ∷ [])))))

  unfoldable pub encrypt_shard : Bytes → Bytes → Bytes → ℕ → Result Bytes
  encrypt_shard cek entity_id plaintext_shard shard_index = validate_cek cek >>= λ _.
      nonce cek entity_id shard_index >>= λ n.
      aad entity_id shard_index >>= λ a. encrypt cek plaintext_shard n a

  unfoldable pub decrypt_shard : Bytes → Bytes → Bytes → ℕ → Result Bytes
  decrypt_shard cek entity_id encrypted_shard shard_index = nonce cek entity_id shard_index >>= λ n.
      aad entity_id shard_index >>= λ a. decrypt cek encrypted_shard n a
