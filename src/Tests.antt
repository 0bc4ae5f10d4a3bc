-- ===== src/Tests.antt =====
-- A ledger, a deposit watcher, a challenge manager and a writer registry on which their theorems
-- are run.
mod Services
mod Protocol
mod Governance
mod Coding
mod Validators
mod Sealed
use suwappu_lattice_protocol.Prelude.{
  ℕ, ◌≤◌, ◌≡◌, refl, true, false, none, some, List, [], ◌∷◌, replicate, Bytes, bytes_discrete, ok,
  inl, inr, subst, Bool-cases, bytes_eq,
}
use suwappu_lattice_protocol.Dict.{lookup, insert}
use suwappu_lattice_protocol.Ledger
use suwappu_lattice_protocol.Ledger.{
  is_empty, ℤ, pos, negsuc, IncentiveConfig, Ledger, check_config, with_min_bond, check_solvency,
}
use suwappu_lattice_protocol.Ledger.Solvency.{
  IsSolvent, Operation, fee, bond_in, deposit, debit, slash, refund, after, run,
}
use suwappu_lattice_protocol.Ledger.Solvency.Runs.{run-check_solvency}
use suwappu_lattice_protocol.Deposits.{DepositEvent, CreditedDeposit, DepositWatcher, process}
use suwappu_lattice_protocol.Deposits.Crediting.{NamesGiven, Step, process-Step}
use suwappu_lattice_protocol.Deposits.Replay.{process-replay}
use suwappu_lattice_protocol.Challenge
use suwappu_lattice_protocol.Challenge.{
  opened, challenged, unresolved, ChallengeRecord, ChallengeManager, FraudProof, submit_challenge,
  tick, tick_time, is_active,
}
use suwappu_lattice_protocol.Challenge.Lifecycle
use suwappu_lattice_protocol.Challenge.Lifecycle.{Moves, status_of, after-Moves}
use suwappu_lattice_protocol.Challenge.Deadlines.{submit_challenge-ok, tick-closes}
use suwappu_lattice_protocol.Writers
use suwappu_lattice_protocol.Writers.{
  WriterIdentity, WriterRecord, WriterRegistry, pending, active, mldsa, sponsored, make_registry,
  find_writer, promote, validate_writer_transition,
}
use suwappu_lattice_protocol.Writers.Audit.{IsRegistry}
use suwappu_lattice_protocol.Writers.Calls
use suwappu_lattice_protocol.Writers.Calls.{after-IsRegistry}

abbrev pub config : IncentiveConfig
config = record {
  price_per_gib_month_micro = 500;
  price_per_gib_served_micro = 100;
  base_commit_fee_micro = 10;
  fee_operator_share_bps = 8_000;
  fee_insurance_share_bps = 1_500;
  fee_treasury_share_bps = 500;
  min_bond_micro = 0;
  slash_failure_threshold = 3;
}

config-checked : check_config config (pos config.min_bond_micro) ≡ ok config
unfolding check_config with_min_bond
config-checked = refl

abbrev pub alice : Bytes
alice = 97 ∷ []

abbrev pub node : Bytes
node = 110 ∷ []

abbrev calls : List Operation
calls =
    deposit alice (pos 100)
    ∷ bond_in node (pos 50)
    ∷ debit alice (pos 33)
    ∷ slash node (pos 7)
    ∷ debit alice (pos 900)
    ∷ fee (negsuc 4)
    ∷ refund alice
    ∷ []

run-check_solvency_example : check_solvency (run (Ledger.init config) calls) ≡ true
run-check_solvency_example =
    run-check_solvency config config (pos config.min_bond_micro) calls config-checked

abbrev address : Bytes
address = 48 ∷ 120 ∷ replicate 40 97

abbrev watcher : DepositWatcher
watcher = record {
  ledger = Ledger.init config;
  min_confirmations = 6;
  bindings = (address, alice) ∷ [];
  credited_tx = [];
  unattributed = [];
}

watcher-NamesGiven : NamesGiven watcher
unfolding lookup is_empty
watcher-NamesGiven k c h = elim (Bool-cases (bytes_eq address k)) [
  | inl here ↦
      let same : some alice ≡ some c = rw here at h in
      let e : alice ≡ c = cc in subst (λ x. is_empty x ≡ false) e refl
  | inr other ↦ absurd (let f : none ≡ some c = rw other at h in cc)
]

abbrev transfer : ℕ → ℕ → DepositEvent
transfer amount depth = record {
  tx_hash = 48 ∷ 120 ∷ replicate 64 97;
  sender = address;
  amount_micro = amount;
  confirmations = depth;
}

abbrev batch : List DepositEvent
batch = transfer 40 3 ∷ transfer 40 7 ∷ transfer 40 8 ∷ []

process-Step_example :
    (cs : List CreditedDeposit) × ((process watcher batch).1 ≡ ok cs)
    × Step watcher (process watcher batch).0 cs
process-Step_example = process-Step watcher batch watcher-NamesGiven

process-replay_example :
    ((process (process watcher batch).0 batch).1 ≡ ok [])
    × ((process (process watcher batch).0 batch).0.ledger ≡ (process watcher batch).0.ledger)
    × ((process (process watcher batch).0 batch).0.credited_tx
        ≡ (process watcher batch).0.credited_tx)
process-replay_example = process-replay watcher batch watcher-NamesGiven

abbrev window : ChallengeRecord
window = record {
  entity_id = alice;
  anchor_digest = replicate 32 0;
  status = opened;
  opened_at = 10;
  challenge_deadline = 110;
  challenger_id = [];
  fraud_proof_hash = [];
  fraud_proof_type = [];
  resolved_at = 0;
  resolution = unresolved;
}

abbrev manager : ChallengeManager
manager = record { challenge_period = 100; records = (alice, window) ∷ [] }

abbrev fraud : FraudProof
fraud = record { verified = true; proof_hash = 5 ∷ []; proof_type = 6 ∷ [] }

abbrev contested : ChallengeRecord
contested = record window {
  status = challenged;
  challenger_id = node;
  fraud_proof_hash = 5 ∷ [];
  fraud_proof_type = 6 ∷ [];
}

abbrev contested_manager : ChallengeManager
contested_manager = record manager { records = (alice, contested) ∷ [] }

challenge_accepted :
    submit_challenge manager 110 alice fraud node ≡ ok (contested_manager, contested)
unfolding submit_challenge Challenge.update Challenge.get Challenge.put Challenge.challenge
    Challenge.transition Challenge.valid_transition lookup insert bytes_discrete
challenge_accepted = refl

submit_challenge-ok_example :
    (r : ChallengeRecord) × (Challenge.get manager alice ≡ some r)
    × (r.status ≡ opened)
    × (110 ≤ r.challenge_deadline)
    × (fraud.verified ≡ true)
    × (Challenge.get contested_manager alice ≡ some contested)
    × (contested.status ≡ challenged)
submit_challenge-ok_example =
    submit_challenge-ok manager 110 alice fraud node (contested_manager, contested)
      challenge_accepted

after-Moves_example :
    Moves
      (status_of (Challenge.get manager alice))
      (status_of (Challenge.get (Lifecycle.after manager (Lifecycle.pass (some 111) 0)) alice))
after-Moves_example = after-Moves manager (Lifecycle.pass (some 111) 0) alice

window-kept : Challenge.get (tick manager (some 0) 50).0 alice ≡ some window
unfolding tick tick_time Challenge.get Challenge.tick_all Challenge.tick_record Challenge.ticked
    lookup bytes_discrete
window-kept = refl

window-active : is_active window.status ≡ true
unfolding is_active
window-active = refl

tick-closes_example : tick_time (some 0) 50 ≤ 110
tick-closes_example = tick-closes manager (some 0) 50 alice window window-kept window-active

abbrev pub identity : WriterIdentity
identity = record { tier = mldsa; fingerprint = alice; mldsa_vk = some node; bls_pk = none }

abbrev pub newcomer : WriterRecord
newcomer = record {
  identity = identity;
  state = pending;
  approval_path = sponsored;
  enrolled_at = 5;
  approved_at = none;
  approved_by = none;
  sponsors = [];
  probation_until = none;
  expires_at = none;
  suspension_reason = none;
  transition_log = [];
}

abbrev pub registry : WriterRegistry
registry = make_registry (record { sponsor_threshold = 2; probation_epochs = 10 })

registry-IsRegistry : IsRegistry registry
unfolding find_writer lookup
registry-IsRegistry k r h = cc

abbrev pub registry_one : WriterRegistry
registry_one = record registry { records = (alice, newcomer) ∷ [] }

after-IsRegistry_example : IsRegistry (Calls.after registry (Calls.enrol identity 5))
after-IsRegistry_example = after-IsRegistry registry (Calls.enrol identity 5) registry-IsRegistry
