-- ===== src/AnchorStatus.antt =====
-- `AnchorStatusTracker` (src/ltp/node/anchor_status.py). Times are natural numbers, for the float
-- clock; a call that reads the clock takes its reading as `now`. The lock makes a call one step, and
-- a snapshot of a record is the record.
pub mod Progress
use suwappu_lattice_protocol.Prelude.{
  ℕ, ◌+◌, Bool, true, false, Option, none, some, List, [], ◌∷◌, length, ◌==◌, if◌then◌else◌, Bytes,
  Result, ok, raise, key_error, value_error, ◌>>=◌,
}
use suwappu_lattice_protocol.Dict.{Dict, lookup, insert}

pub data AnchorStatus : Type 0 where
  pending submitted confirmed finalized failed : AnchorStatus

pub record AnchorRecord : Type 0 where
  pub entity_id : Bytes
  pub anchor_digest : Bytes
  pub status : AnchorStatus
  pub tx_hash : Bytes
  pub block_number : ℕ
  pub gas_used : ℕ
  pub submitted_at : ℕ
  pub confirmed_at : ℕ
  pub error : Bytes
  pub retry_count : ℕ
  pub chain_id : ℕ

-- `_VALID_TRANSITIONS`
unfoldable pub valid_transition : AnchorStatus → AnchorStatus → Bool
valid_transition pending submitted = true
valid_transition submitted confirmed = true
valid_transition confirmed finalized = true
valid_transition pending failed = true
valid_transition submitted failed = true
valid_transition confirmed failed = true
valid_transition _ _ = false

-- The tracker is its dict of records.
abbrev pub Tracker : Type 0
Tracker = Dict AnchorRecord

abbrev pub make_tracker : Tracker
make_tracker = []

unfoldable pub get : Tracker → Bytes → Option AnchorRecord
get t entity_id = lookup entity_id t

abbrev pub found : Option AnchorRecord → Result AnchorRecord
found none = raise key_error
found (some r) = ok r

-- `_transition`, on the record that it looked up
unfoldable pub transition : AnchorStatus → AnchorRecord → Result AnchorRecord
transition to_status r =
    if valid_transition r.status to_status
    then ok (record r { status = to_status })
    else raise value_error

-- A transition of an entity, and what the method then sets in the record.
unfoldable pub move :
    Tracker → Bytes → AnchorStatus → (AnchorRecord → AnchorRecord) → Result Tracker
move t entity_id to_status set =
    found (get t entity_id) >>= transition to_status >>= (λ r. ok (insert entity_id (set r) t))

unfoldable pub mark_pending : Tracker → ℕ → Bytes → Bytes → ℕ → Result Tracker
mark_pending t now entity_id anchor_digest chain_id =
    let r : AnchorRecord = record {
      entity_id = entity_id;
      anchor_digest = anchor_digest;
      status = pending;
      tx_hash = [];
      block_number = 0;
      gas_used = 0;
      submitted_at = now;
      confirmed_at = 0;
      error = [];
      retry_count = 0;
      chain_id = chain_id;
    } in
    if length anchor_digest == 32 then ok (insert entity_id r t) else raise value_error

unfoldable pub mark_submitted : Tracker → Bytes → Bytes → Result Tracker
mark_submitted t entity_id tx_hash =
    move t entity_id submitted (λ r. record r { tx_hash = tx_hash })

unfoldable pub mark_confirmed : Tracker → ℕ → Bytes → ℕ → ℕ → Result Tracker
mark_confirmed t now entity_id block_number gas_used =
    move t entity_id confirmed
      (λ r. record r { block_number = block_number; gas_used = gas_used; confirmed_at = now })

unfoldable pub mark_finalized : Tracker → Bytes → Result Tracker
mark_finalized t entity_id = move t entity_id finalized (λ r. r)

unfoldable pub mark_failed : Tracker → Bytes → Bytes → Result Tracker
mark_failed t entity_id error = move t entity_id failed (λ r. record r { error = error })

unfoldable pub increment_retry : Tracker → Bytes → Result (Tracker × ℕ)
increment_retry t entity_id = found (get t entity_id) >>= λ r.
    ok (insert entity_id (record r { retry_count = r.retry_count + 1 }) t, r.retry_count + 1)

unfoldable pub same_status : AnchorStatus → AnchorStatus → Bool
same_status pending pending = true
same_status submitted submitted = true
same_status confirmed confirmed = true
same_status finalized finalized = true
same_status failed failed = true
same_status _ _ = false

unfoldable pub get_by_status : AnchorStatus → Tracker → List AnchorRecord
get_by_status s [] = []
get_by_status s ((k, r) ∷ t) =
    if same_status r.status s then r ∷ get_by_status s t else get_by_status s t

unfoldable pub pending_count : Tracker → ℕ
pending_count t = length (get_by_status pending t)

-- The count of a status in the dict that `stats` returns.
unfoldable pub stats : Tracker → AnchorStatus → ℕ
stats t s = length (get_by_status s t)
