-- ===== src/Challenge.antt =====
-- `ChallengeManager` (src/ltp/bridge/challenge.py). Times are natural numbers, for the float clock;
-- each call takes the clock's reading as `now`. The lock makes a call one step, and a snapshot of a
-- record is the record. Log lines are left out.
pub mod Lifecycle
pub mod Deadlines
use suwappu_lattice_protocol.Prelude.{
  ℕ, ◌+◌, Bool, true, false, Option, none, some, List, [], ◌∷◌, length, ltb, ◌==◌, ◌||◌, ◌&&◌,
  if◌then◌else◌, Bytes, bytes_eq, Result, ok, raise, key_error, value_error, ◌>>=◌,
}
use suwappu_lattice_protocol.Dict.{Dict, lookup, insert}

pub data ChallengeStatus : Type 0 where
  opened challenged resolved finalized expired : ChallengeStatus

-- The answers to a challenge, and the mark of a proof.
pub data Resolution : Type 0 where
  unresolved valid_fraud invalid_challenge zk_proof : Resolution

pub record ChallengeRecord : Type 0 where
  pub entity_id : Bytes
  pub anchor_digest : Bytes
  pub status : ChallengeStatus
  pub opened_at : ℕ
  pub challenge_deadline : ℕ
  pub challenger_id : Bytes
  pub fraud_proof_hash : Bytes
  pub fraud_proof_type : Bytes
  pub resolved_at : ℕ
  pub resolution : Resolution

-- What the methods of a fraud proof return.
pub record FraudProof : Type 0 where
  pub verified : Bool
  pub proof_hash : Bytes
  pub proof_type : Bytes

pub record ChallengeManager : Type 0 where
  pub challenge_period : ℕ
  pub records : Dict ChallengeRecord

abbrev pub default_challenge_period : ℕ
default_challenge_period = 604_800

abbrev pub make_manager : ℕ → ChallengeManager
make_manager challenge_period = record { challenge_period = challenge_period; records = [] }

-- `_VALID_TRANSITIONS`
unfoldable pub valid_transition : ChallengeStatus → ChallengeStatus → Bool
valid_transition opened challenged = true
valid_transition opened finalized = true
valid_transition challenged resolved = true
valid_transition challenged expired = true
valid_transition challenged finalized = true
valid_transition _ _ = false

-- `status in (OPEN, CHALLENGED)`
unfoldable pub is_active : ChallengeStatus → Bool
is_active opened = true
is_active challenged = true
is_active _ = false

unfoldable pub get : ChallengeManager → Bytes → Option ChallengeRecord
get m entity_id = lookup entity_id m.records

abbrev pub found : Option ChallengeRecord → Result ChallengeRecord
found none = raise key_error
found (some r) = ok r

unfoldable pub put : ChallengeManager → Bytes → ChallengeRecord → ChallengeManager
put m entity_id r = record m { records = insert entity_id r m.records }

-- `_transition`, on the record that it looked up
unfoldable pub transition : ChallengeRecord → ChallengeStatus → Result ChallengeRecord
transition r to_status =
    if valid_transition r.status to_status
    then ok (record r { status = to_status })
    else raise value_error

abbrev pub is_open_already : Option ChallengeRecord → Bool
is_open_already none = false
is_open_already (some r) = is_active r.status

unfoldable pub open_challenge_window :
    ChallengeManager → ℕ → Bytes → Bytes → Result (ChallengeManager × ChallengeRecord)
open_challenge_window m now entity_id anchor_digest =
    let r : ChallengeRecord = record {
      entity_id = entity_id;
      anchor_digest = anchor_digest;
      status = opened;
      opened_at = now;
      challenge_deadline = now + m.challenge_period;
      challenger_id = [];
      fraud_proof_hash = [];
      fraud_proof_type = [];
      resolved_at = 0;
      resolution = unresolved;
    } in
    if length anchor_digest == 32
    then if is_open_already (get m entity_id) then raise value_error else ok (put m entity_id r, r)
    else raise value_error

-- The checks of `submit_challenge` on the record, and its change of it.
unfoldable pub challenge : ℕ → FraudProof → Bytes → ChallengeRecord → Result ChallengeRecord
challenge now fraud_proof challenger_id r =
    if ltb r.challenge_deadline now
    then raise value_error
    else if fraud_proof.verified
    then (transition r challenged >>= (λ r'. ok (record r' {
      challenger_id = challenger_id;
      fraud_proof_hash = fraud_proof.proof_hash;
      fraud_proof_type = fraud_proof.proof_type;
    })))
    else raise value_error

-- A change of the record of an entity, with its snapshot.
unfoldable pub update :
    ChallengeManager
    → Bytes
    → (ChallengeRecord → Result ChallengeRecord)
    → Result (ChallengeManager × ChallengeRecord)
update m entity_id change = found (get m entity_id) >>= change >>= (λ r. ok (put m entity_id r, r))

unfoldable pub submit_challenge :
    ChallengeManager → ℕ → Bytes → FraudProof → Bytes → Result (ChallengeManager × ChallengeRecord)
submit_challenge m now entity_id fraud_proof challenger_id =
    update m entity_id (challenge now fraud_proof challenger_id)

unfoldable pub resolve : ℕ → Resolution → ChallengeRecord → Result ChallengeRecord
resolve now answer r =
    transition r resolved >>= (λ r'. ok (record r' { resolved_at = now; resolution = answer }))

unfoldable pub is_answer : Resolution → Bool
is_answer valid_fraud = true
is_answer invalid_challenge = true
is_answer _ = false

unfoldable pub resolve_challenge :
    ChallengeManager → ℕ → Bytes → Resolution → Result (ChallengeManager × ChallengeRecord)
resolve_challenge m now entity_id answer =
    if is_answer answer then update m entity_id (resolve now answer) else raise value_error

unfoldable pub finalize : ℕ → ChallengeRecord → Result ChallengeRecord
finalize now r =
    if is_active r.status
    then ok (record r { status = finalized; resolved_at = now; resolution = zk_proof })
    else raise value_error

-- `verified` is what `ZKBridgeVerifier.verify` returned on the proof.
unfoldable pub resolve_with_proof :
    ChallengeManager → ℕ → Bytes → Bool → Result (ChallengeManager × ChallengeRecord)
resolve_with_proof m now entity_id verified =
    if verified then update m entity_id (finalize now) else raise value_error

-- The status of a record after a tick at a time.
unfoldable pub ticked : Bool → ChallengeStatus → ChallengeStatus
ticked true opened = finalized
ticked true challenged = expired
ticked _ s = s

unfoldable pub tick_record : ℕ → ChallengeRecord → ChallengeRecord
tick_record now r = record r { status = ticked (ltb r.challenge_deadline now) r.status }

unfoldable pub tick_all : ℕ → Dict ChallengeRecord → Dict ChallengeRecord
tick_all now [] = []
tick_all now ((k, r) ∷ d) = (k, tick_record now r) ∷ tick_all now d

unfoldable pub ended : ℕ → Dict ChallengeRecord → List Bytes
ended now [] = []
ended now ((k, r) ∷ d) =
    if is_active r.status && ltb r.challenge_deadline now then k ∷ ended now d else ended now d

-- `now or self._clock()`: a `now` of 0 reads the clock too.
unfoldable pub tick_time : Option ℕ → ℕ → ℕ
tick_time none clock = clock
tick_time (some now) clock = if now == 0 then clock else now

unfoldable pub tick : ChallengeManager → Option ℕ → ℕ → ChallengeManager × List Bytes
tick m now clock =
    let time = tick_time now clock in
    (record m { records = tick_all time m.records }, ended time m.records)

unfoldable pub same_status : ChallengeStatus → ChallengeStatus → Bool
same_status opened opened = true
same_status challenged challenged = true
same_status resolved resolved = true
same_status finalized finalized = true
same_status expired expired = true
same_status _ _ = false

unfoldable pub with_status : ChallengeStatus → Dict ChallengeRecord → List ChallengeRecord
with_status s [] = []
with_status s ((k, r) ∷ d) = if same_status r.status s then r ∷ with_status s d else with_status s d

abbrev pub get_by_status : ChallengeManager → ChallengeStatus → List ChallengeRecord
get_by_status m s = with_status s m.records

-- The count of a status in the dict that `stats` returns.
unfoldable pub stats : ChallengeManager → ChallengeStatus → ℕ
stats m s = length (with_status s m.records)
