-- ===== src/Shards/Sealing.antt =====
-- Encrypted shards are decrypted under the entity and index of their encryption, and under no other.
use suwappu_lattice_protocol.Prelude.{
  none, ok-inj, bind-eq_ok, length-append, bytes_discrete, ◌⊎◌, ap, sym, ◌∙◌, ℕ, ◌+◌, ◌^◌, ◌<◌, ◌≡◌,
  ◌≢◌, refl, true, false, Bool-cases, Option, some, length, length-take_of_le, take, replicate, ltb,
  ◌==◌, inl, inr, ◌++◌, ◌∷◌, [], Bytes, bytes_eq, bytes_eq→eq, ok, arith,
}
use suwappu_lattice_protocol.Merkle.Collision.{append_inj_left}
use suwappu_lattice_protocol.Encoding.{u32_bytes, pack_length}
use suwappu_lattice_protocol.Encoding.Codes.{u32_bytes-inj, pack_length-eq_ok}
use suwappu_lattice_protocol.Shards.{
  Crypto, validate_cek, aad, or_none, opened, encrypt, decrypt, extract_prk, nonce, encrypt_shard,
  decrypt_shard, tag_size,
}

-- What is documented of the cipher and of HMAC-SHA256.
pub record IsCrypto (c : Crypto) : Type 0 where
  pub opens :
      (text : Bytes) (extra : Option Bytes) (n key : Bytes)
      → c.nacl_decrypt (c.nacl_encrypt text extra n key) extra n key ≡ some text
  pub grows :
      (text : Bytes) (extra : Option Bytes) (n key : Bytes)
      → length (c.nacl_encrypt text extra n key) ≡ length text + tag_size
  pub digests : (key message : Bytes) → length (c.hmac key message) ≡ 32

differ : (a b : Bytes) → a ≢ b → bytes_eq a b ≡ false
differ a b ne = elim (Bool-cases (bytes_eq a b)) [
  | inl e ↦ absurd (ne (bytes_eq→eq a b e))
  | inr e ↦ e
]

-- For a key of 32 bytes that are not all 0 nor all 255 and an index below 2 ^ 32, `encrypt_shard`
-- returns 16 bytes more than the shard, and `decrypt_shard` returns the shard from them.
pub decrypt_shard-encrypt_shard :
    (c : Crypto)
    → IsCrypto c
    → (cek entity_id plain : Bytes) (i : ℕ) → length cek ≡ 32
    → cek ≢ replicate 32 0
    → cek ≢ replicate 32 255
    → i < 2 ^ 32
    → (sealed : Bytes) × (encrypt_shard c cek entity_id plain i ≡ ok sealed)
      × (length sealed ≡ length plain + 16)
      × (decrypt_shard c cek entity_id sealed i ≡ ok plain)
unfolding encrypt_shard decrypt_shard encrypt decrypt validate_cek pack_length aad nonce opened
decrypt_shard-encrypt_shard c h cek entity_id plain i long zero one small =
    let fits : ltb i (2 ^ 32) ≡ true = ground arith in
    let valid : (length cek == 32) ≡ true = ground arith in
    let full = c.hmac (extract_prk c cek) (entity_id ++ (u32_bytes i ++ (1 ∷ []))) in
    let n = take 24 full in
    let extra = or_none (entity_id ++ u32_bytes i) in
    let digest : length full ≡ 32 =
      h.digests (extract_prk c cek) (entity_id ++ (u32_bytes i ++ (1 ∷ []))) in
    let cut : length n ≡ 24 = length-take_of_le 24 full (omega (arith, digest)) in
    let whole : (length n == 24) ≡ true = ground (arith, cut) in
    let sealed = c.nacl_encrypt plain extra n cek in
    let grown : (length sealed == length plain + 16) ≡ true =
      let g = h.grows plain extra n cek in ground (arith, g) in
    (
      sealed,
      rw
          (
            valid,
            differ cek (replicate 32 0) zero,
            differ cek (replicate 32 255) one,
            fits,
            whole,
            grown,
          )
          refl,
      h.grows plain extra n cek,
      rw (fits, whole, h.opens plain extra n cek) refl,
    )

-- Two endings of one length of the same bytes are the same, and so is what stands before them.
ending : (e f x y : Bytes) → length x ≡ length y → e ++ x ≡ f ++ y → (e ≡ f) × (x ≡ y)
ending e f x y same h =
    let long = ap length h in
    append_inj_left e x f y h (omega (arith, same, long, length-append e x, length-append f y))

-- The associated data determines the entity and the index.
aad-inj : (e f a b : Bytes) (i j : ℕ) → aad e i ≡ ok a → aad f j ≡ ok b → a ≡ b → (e ≡ f) × (i ≡ j)
unfolding aad
aad-inj e f a b i j p q same =
    let (x, px, ex) = bind-eq_ok (pack_length i) _ p in
    let (y, qy, ey) = bind-eq_ok (pack_length j) _ q in
    let (li, sx) = pack_length-eq_ok i x px in
    let (lj, sy) = pack_length-eq_ok j y qy in
    let (ends, last) =
      ending e f x y (ap length sx ∙ sym (ap length sy)) (ok-inj ex ∙ same ∙ sym (ok-inj ey)) in
    (ends, u32_bytes-inj i j li lj (sym sx ∙ last ∙ sy))

-- The cipher opens what it made under the same key and other associated data.
pub record Forgery (c : Crypto) : Type 0 where
  pub text : Bytes
  pub opened_text : Bytes
  pub key : Bytes
  pub sealed_nonce : Bytes
  pub opened_nonce : Bytes
  pub sealed_extra : Bytes
  pub opened_extra : Bytes
  pub differs : sealed_extra ≢ opened_extra
  pub opens :
      c.nacl_decrypt
        (c.nacl_encrypt text (or_none sealed_extra) sealed_nonce key)
        (or_none opened_extra)
        opened_nonce
        key
      ≡ some opened_text

-- What an encryption that returned was of.
encrypt_shard-eq_ok :
    (c : Crypto) (cek e plain sealed : Bytes) (i : ℕ)
    → encrypt_shard c cek e plain i ≡ ok sealed
    → (n : Bytes) × (a : Bytes) × (aad e i ≡ ok a)
      × (sealed ≡ c.nacl_encrypt plain (or_none a) n cek)
unfolding encrypt_shard encrypt
encrypt_shard-eq_ok c cek e plain sealed i h =
    let (u, valid, h1) = bind-eq_ok (validate_cek cek) _ h in
    let (n, nonced, h2) = bind-eq_ok (nonce c cek e i) _ h1 in
    let (a, extra, h3) = bind-eq_ok (aad e i) _ h2 in
    let ct = c.nacl_encrypt plain (or_none a) n cek in
    (
      n,
      a,
      extra,
      elim (Bool-cases (length n == 24)) [
        | inr bad ↦ absurd (let f = rw bad at h3 in cc)
        | inl fits ↦ elim (Bool-cases (length ct == length plain + 16)) [
          | inr bad ↦ absurd (let f = rw (fits, bad) at h3 in cc)
          | inl grown ↦ sym (ok-inj (rw (fits, grown) at h3))
        ]
      ],
    )

opened-eq_ok : (o : Option Bytes) (plain : Bytes) → opened o ≡ ok plain → o ≡ some plain
unfolding opened
opened-eq_ok none plain h = absurd (cc)
opened-eq_ok (some x) plain h = ap some (ok-inj h)

-- What a decryption that returned opened.
decrypt_shard-eq_ok :
    (c : Crypto) (cek e sealed plain : Bytes) (i : ℕ)
    → decrypt_shard c cek e sealed i ≡ ok plain
    → (n : Bytes) × (a : Bytes) × (aad e i ≡ ok a)
      × (c.nacl_decrypt sealed (or_none a) n cek ≡ some plain)
unfolding decrypt_shard decrypt
decrypt_shard-eq_ok c cek e sealed plain i h =
    let (n, nonced, h2) = bind-eq_ok (nonce c cek e i) _ h in
    let (a, extra, h3) = bind-eq_ok (aad e i) _ h2 in
    (
      n,
      a,
      extra,
      elim (Bool-cases (length n == 24)) [
        | inr bad ↦ absurd (let f = rw bad at h3 in cc)
        | inl fits ↦ opened-eq_ok (c.nacl_decrypt sealed (or_none a) n cek) plain (rw fits at h3)
      ],
    )

-- Where `encrypt_shard` returned, and `decrypt_shard` of its result with the same key returned, both
-- were called with the same entity and the same index, unless the cipher is seen to open, under the
-- same key, what it made under other associated data.
pub decrypt_shard-moved :
    (c : Crypto) (cek e f plain other sealed : Bytes) (i j : ℕ)
    → encrypt_shard c cek e plain i ≡ ok sealed
    → decrypt_shard c cek f sealed j ≡ ok other
    → ((e ≡ f) × (i ≡ j)) ⊎ Forgery c
decrypt_shard-moved c cek e f plain other sealed i j made read =
    let (n, a, extra, same) = encrypt_shard-eq_ok c cek e plain sealed i made in
    let (m, b, extra', opens) = decrypt_shard-eq_ok c cek f sealed other j read in
    elim (bytes_discrete a b) [
      | yes eq ↦ inl (aad-inj e f a b i j extra extra' eq)
      | no ne ↦ inr (record {
        text = plain;
        opened_text = other;
        key = cek;
        sealed_nonce = n;
        opened_nonce = m;
        sealed_extra = a;
        opened_extra = b;
        differs = ne;
        opens = ap (λ s. c.nacl_decrypt s (or_none b) m cek) (sym same) ∙ opens;
      })
    ]
