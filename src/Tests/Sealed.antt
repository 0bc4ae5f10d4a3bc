-- ===== src/Tests/Sealed.antt =====
-- A cipher and a tracker of keys on which their theorems are run.
use suwappu_lattice_protocol.Encoding.{pack_length}
use suwappu_lattice_protocol.Prelude.{
  ◌⊎◌, ℕ, ◌≡◌, refl, true, some, List, [], ◌∷◌, ◌++◌, drop, replicate, bytes_discrete, Bytes, ok,
  raise, runtime_error, value_error, arith,
}
use suwappu_lattice_protocol.Shards.{
  encrypt, decrypt, nonce, aad, opened, Crypto, reset_poc_state, is_issued, generate_cek,
  cek_tracking_limit, validate_cek, encrypt_shard, decrypt_shard,
}
use suwappu_lattice_protocol.Shards.Keys.{IsTracking, run, run-tracks}
use suwappu_lattice_protocol.Shards.Sealing.{IsCrypto, Forgery, decrypt_shard-moved}

-- The tag before the text.
abbrev framing : Crypto
framing = record {
  nacl_encrypt = λ text extra n key. replicate 16 0 ++ text;
  nacl_decrypt = λ sealed extra n key. some (drop 16 sealed);
  hmac = λ key message. replicate 32 0;
}

framing-IsCrypto : IsCrypto framing
framing-IsCrypto = record {
  opens = λ text extra n key. refl;
  grows = λ text extra n key. omega arith;
  digests = λ key message. refl;
}

abbrev entity : Bytes
entity = 1 ∷ 2 ∷ []

abbrev framed : Bytes
framed = replicate 16 0 ++ (5 ∷ 6 ∷ [])

framed_sealed : encrypt_shard framing (replicate 32 7) entity (5 ∷ 6 ∷ []) 3 ≡ ok framed
unfolding encrypt_shard encrypt validate_cek nonce aad pack_length bytes_discrete
framed_sealed = refl

-- This cipher does not look at the associated data, so it is caught at a forgery.
framed_moved : decrypt_shard framing (replicate 32 7) entity framed 4 ≡ ok (5 ∷ 6 ∷ [])
unfolding decrypt_shard decrypt nonce aad pack_length opened
framed_moved = refl

decrypt_shard-moved_example : ((entity ≡ entity) × (◌≡◌ {A = ℕ} 3 4)) ⊎ Forgery framing
decrypt_shard-moved_example =
    decrypt_shard-moved framing (replicate 32 7) entity entity (5 ∷ 6 ∷ []) (5 ∷ 6 ∷ []) framed 3 4
      framed_sealed framed_moved

zeros_rejected : validate_cek (replicate 32 0) ≡ raise value_error
unfolding validate_cek bytes_discrete
zeros_rejected = refl

abbrev drawn : List Bytes
drawn = (1 ∷ []) ∷ (2 ∷ []) ∷ (1 ∷ []) ∷ []

run-tracks_example :
    IsTracking (run reset_poc_state drawn)
    × ((cek : Bytes)
        → is_issued cek (run reset_poc_state drawn).issued_ceks_order ≡ true
        → generate_cek (run reset_poc_state drawn) cek
          ≡ (run reset_poc_state drawn, raise runtime_error))
run-tracks_example = run-tracks drawn

drawn_order : (run reset_poc_state drawn).issued_ceks_order ≡ (1 ∷ []) ∷ (2 ∷ []) ∷ []
unfolding generate_cek is_issued cek_tracking_limit bytes_discrete
drawn_order = refl
