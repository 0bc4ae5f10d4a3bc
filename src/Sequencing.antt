-- ===== src/Sequencing.antt =====
-- `SequenceTracker` (src/ltp/sequencing.py): a high-water mark for each signer against replays. The
-- fingerprint of a key is a parameter. Times are natural numbers, for the float clock, and a call
-- takes its reading as `now`. The mark of a signer never seen is -1 in the code and absent here.
pub mod Rising
use suwappu_lattice_protocol.Prelude.{
  ℕ, ◌+◌, Bool, true, false, Option, none, some, List, [], ◌∷◌, ltb, leb, not, if◌then◌else◌, Bytes,
  bytes_eq,
}
use suwappu_lattice_protocol.Dict.{Dict, lookup, insert}
use suwappu_lattice_protocol.Ledger.{ℤ, pos, negsuc}

pub record SequenceTracker : Type 0 where
  pub chain_id : Bytes
  pub high_water_marks : Dict ℕ

abbrev pub make_tracker : Bytes → SequenceTracker
make_tracker chain_id = record { chain_id = chain_id; high_water_marks = [] }

-- `(True, "")`, or the reason of a rejection.
pub data Verdict : Type 0 where
  accepted chain_mismatch expired replay : Verdict

-- A sequence number above the current mark, as the new mark; none at or below it, and a negative one
-- never is above.
unfoldable pub newer : Option ℕ → ℤ → Option ℕ
newer none (pos n) = some n
newer (some current) (pos n) = if ltb current n then some n else none
newer _ (negsuc n) = none

abbrev pub advance : SequenceTracker → Bytes → Option ℕ → SequenceTracker × Verdict
advance t fp none = (t, replay)
advance t fp (some n) = (record t { high_water_marks = insert fp n t.high_water_marks }, accepted)

-- An item of a batch, with the clock's reading when it is validated.
pub record Request : Type 0 where
  pub now : ℕ
  pub signer_vk : Bytes
  pub sequence : ℤ
  pub target_chain_id : Bytes
  pub valid_until : ℕ

module _ (signer_fingerprint : Bytes → Bytes) where
  unfoldable pub validate_and_advance : SequenceTracker → Request → SequenceTracker × Verdict
  validate_and_advance t r =
      let fp = signer_fingerprint r.signer_vk in
      if not (bytes_eq r.target_chain_id t.chain_id)
      then (t, chain_mismatch)
      else if leb r.valid_until r.now
      then (t, expired)
      else advance t fp (newer (lookup fp t.high_water_marks) r.sequence)

  unfoldable pub validate_batch : SequenceTracker → List Request → SequenceTracker × List Verdict
  validate_batch t [] = (t, [])
  validate_batch t (r ∷ rs) =
      let first = validate_and_advance t r in
      let rest = validate_batch first.0 rs in (rest.0, first.1 ∷ rest.1)

  unfoldable pub next_sequence : SequenceTracker → Bytes → ℕ
  next_sequence t signer_vk = elim (lookup (signer_fingerprint signer_vk) t.high_water_marks) [
    | none ↦ 0
    | some n ↦ n + 1
  ]

  unfoldable pub current_sequence : SequenceTracker → Bytes → ℤ
  current_sequence t signer_vk = elim (lookup (signer_fingerprint signer_vk) t.high_water_marks) [
    | none ↦ negsuc 0
    | some n ↦ pos n
  ]
