-- ===== src/Pricing.antt =====
-- `StableCommitmentPricing` (src/ltp/incentives.py): quotes for storage, and the fee collected into
-- the ledger. The ledger's configuration does not change, so the service keeps the ledger alone.
pub mod Quotes
use suwappu_lattice_protocol.Prelude.{
  ℕ, ◌+◌, ◌*◌, Option, none, some, [], ◌==◌, if◌then◌else◌, Bytes, Result, ok, raise, value_error,
  key_error, ◌>>=◌,
}
use suwappu_lattice_protocol.Dict.{Dict, lookup, insert}
use suwappu_lattice_protocol.Ledger.{ℤ, pos, negsuc, Ledger, storage_rate_micro, deposit_fee}

pub record Pricing : Type 0 where
  pub ledger : Ledger
  pub commitments : Dict (ℕ × ℕ)

abbrev pub make_pricing : Ledger → Pricing
make_pricing ledger = record { ledger = ledger; commitments = [] }

unfoldable pub price : Pricing → ℤ → ℤ → ℤ → Result ℕ
price p (pos entity_size) (pos replication_factor) (pos ttl_seconds) =
    if replication_factor == 0
    then raise value_error
    else ok (
        p.ledger.config.base_commit_fee_micro
        + storage_rate_micro p.ledger.config (entity_size * replication_factor * ttl_seconds))
price p _ _ _ = raise value_error

unfoldable pub record_commitment : Pricing → Bytes → ℤ → ℤ → Result Pricing
record_commitment p entity_id (pos entity_size) (pos replication_factor) =
    if replication_factor == 0
    then raise value_error
    else ok (record p {
      commitments = insert entity_id (entity_size, replication_factor) p.commitments;
    })
record_commitment p entity_id _ _ = raise value_error

unfoldable pub quote : Pricing → Option (ℕ × ℕ) → ℤ → Result ℕ
quote p none additional_ttl = raise key_error
quote p (some (size, repl)) (negsuc n) = raise value_error
quote p (some (size, repl)) (pos additional_ttl) =
    ok (storage_rate_micro p.ledger.config (size * repl * additional_ttl))

unfoldable pub renew : Pricing → Bytes → ℤ → Result ℕ
unfolding quote
renew p entity_id additional_ttl = quote p (lookup entity_id p.commitments) additional_ttl

abbrev pub collected : Pricing → Ledger × (ℕ × ℕ × ℕ) → Result (Pricing × (ℕ × ℕ × ℕ))
collected p (l, shares) = ok (record p { ledger = l }, shares)

unfoldable pub collect : Pricing → ℤ → Result (Pricing × (ℕ × ℕ × ℕ))
collect p amount_micro = deposit_fee p.ledger amount_micro >>= collected p
