-- ===== src/Pricing/Quotes.antt =====
-- Quotes and the splitting of a term into a commitment and its renewal.
use suwappu_lattice_protocol.Prelude.{
  ℕ, ◌+◌, ◌*◌, ◌≤◌, ◌≡◌, refl, subst, false, some, ◌==◌, Bytes, ok, ok-inj, arith,
}
use native.Mathlib.Nat.{add-mul, mul-add}
use suwappu_lattice_protocol.Dict.{lookup, lookup-insert_self}
use suwappu_lattice_protocol.Ledger.{pos, IncentiveConfig, storage_rate_micro}
use suwappu_lattice_protocol.Pricing.{Pricing, price, record_commitment, quote, renew}

storage_rate-add :
    (c : IncentiveConfig) (a b : ℕ)
    → (storage_rate_micro c a + storage_rate_micro c b ≤ storage_rate_micro c (a + b))
      × (storage_rate_micro c (a + b) ≤ storage_rate_micro c a + storage_rate_micro c b + 1)
unfolding storage_rate_micro
storage_rate-add c a b =
    let p = c.price_per_gib_month_micro in
    let e : (a + b) * p ≡ a * p + b * p = add-mul a b p in (omega (arith, e), omega (arith, e))

-- For a recorded commitment: the price of a whole term is the price of its first part and the
-- renewal for the rest, or one unit more, since each quote rounds down.
price-renew :
    (p p' : Pricing) (k : Bytes) (size repl first rest : ℕ)
    → 1 ≤ repl
    → record_commitment p k (pos size) (pos repl) ≡ ok p'
    → (a b c : ℕ) × (price p' (pos size) (pos repl) (pos first) ≡ ok a)
      × (renew p' k (pos rest) ≡ ok b)
      × (price p' (pos size) (pos repl) (pos (first + rest)) ≡ ok c)
      × (a + b ≤ c)
      × (c ≤ a + b + 1)
unfolding record_commitment price renew quote
price-renew p p' k size repl first rest h e =
    let real : (repl == 0) ≡ false = ground arith in
    let stored = ok-inj (rw real at e) in
    let known : lookup k p'.commitments ≡ some (size, repl) =
      subst (λ q. lookup k q.commitments ≡ some (size, repl)) stored
        (lookup-insert_self k (size, repl) p.commitments) in
    let rates = storage_rate-add p'.ledger.config (size * repl * first) (size * repl * rest) in
    let whole : size * repl * (first + rest) ≡ size * repl * first + size * repl * rest =
      mul-add (size * repl) first rest in
    let base = p'.ledger.config.base_commit_fee_micro in
    (
      base + storage_rate_micro p'.ledger.config (size * repl * first),
      storage_rate_micro p'.ledger.config (size * repl * rest),
      base + storage_rate_micro p'.ledger.config (size * repl * (first + rest)),
      rw real refl,
      rw known refl,
      rw real refl,
      rw whole (omega (arith, rates.0)),
      rw whole (omega (arith, rates.1)),
    )
