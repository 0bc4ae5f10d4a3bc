-- ===== src/Tests/Protocol.antt =====
-- A circuit breaker, anchors, a sequence tracker and a writer registry on which their theorems are
-- run.
use suwappu_lattice_protocol.Prelude.{
  ℕ, ◌≡◌, refl, List, [], ◌∷◌, replicate, bytes_discrete, Result, ok, raise, value_error, arith,
}
use suwappu_lattice_protocol.Dict.{lookup, insert}
use suwappu_lattice_protocol.Breaker.{Breaker, make_breaker}
use suwappu_lattice_protocol.Breaker.Machine.{
  Event, ask, fail, succeed, machine, requests, answers, requests-answers,
}
use suwappu_lattice_protocol.AnchorStatus.{AnchorRecord, Tracker, submitted, failed, get}
use suwappu_lattice_protocol.AnchorStatus.Progress
use suwappu_lattice_protocol.AnchorStatus.Progress.{Advances, after-Advances}
use suwappu_lattice_protocol.Ledger.{pos, negsuc}
use suwappu_lattice_protocol.Sequencing.{SequenceTracker, Request, validate_batch}
use suwappu_lattice_protocol.Sequencing.Rising.{Rises, accepted_from, validate_batch-Rises}
use suwappu_lattice_protocol.Writers.{
  update, put, transition, mark_revoked, validate_writer_transition, same_state,
  valid_writer_transition, find_writer, WriterRecord, WriterRegistry, enroll, revoke,
}
use suwappu_lattice_protocol.Writers.Calls
use suwappu_lattice_protocol.Writers.Revocation.{IsRevoked, run, revoke-final}
use suwappu_lattice_protocol.Tests.{alice, node, identity, newcomer, registry_one}

abbrev breaker : Breaker
breaker = record (make_breaker 3 60) { consecutive_failures = 2; last_failure_at = 40 }

abbrev events : List Event
events = ask 45 ∷ fail 50 ∷ ask 60 ∷ ask 115 ∷ ask 116 ∷ succeed ∷ ask 117 ∷ []

requests-answers_example :
    requests breaker events
    ≡ answers breaker.failure_threshold breaker.cooldown_seconds (machine breaker) events
requests-answers_example = requests-answers breaker events (omega arith)

abbrev anchor : AnchorRecord
anchor = record {
  entity_id = alice;
  anchor_digest = replicate 32 0;
  status = submitted;
  tx_hash = node;
  block_number = 0;
  gas_used = 0;
  submitted_at = 3;
  confirmed_at = 0;
  error = [];
  retry_count = 0;
  chain_id = 1;
}

abbrev tracker : Tracker
tracker = (alice, anchor) ∷ (node, record anchor { status = failed }) ∷ []

after-Advances_example :
    Advances (Progress.confirm 9 alice 100 21_000) alice (Progress.status_of (get tracker alice)) (
      Progress.status_of (get (Progress.after tracker (Progress.confirm 9 alice 100 21_000)) alice))
after-Advances_example = after-Advances tracker (Progress.confirm 9 alice 100 21_000) alice

abbrev revoked_one : Result (WriterRegistry × WriterRecord) → WriterRegistry × WriterRecord
revoked_one (ok p) = p
revoked_one (raise e) = (registry_one, newcomer)

revoked_alice :
    revoke registry_one alice node 9 ≡ ok (revoked_one (revoke registry_one alice node 9))
unfolding revoke update put transition mark_revoked validate_writer_transition same_state
    valid_writer_transition find_writer lookup insert bytes_discrete
revoked_alice = refl

abbrev attempts : List Calls.Call
attempts =
    Calls.enrol identity 10
    ∷ Calls.reinstates alice node 11
    ∷ Calls.promotes alice 12
    ∷ Calls.expires 99
    ∷ []

revoke-final_example :
    IsRevoked (run (revoked_one (revoke registry_one alice node 9)).0 attempts) alice
    × (enroll (run (revoked_one (revoke registry_one alice node 9)).0 attempts) identity 20
        ≡ raise value_error)
revoke-final_example =
    revoke-final registry_one identity node 9 20 (revoked_one (revoke registry_one alice node 9))
      attempts revoked_alice

abbrev sequences : SequenceTracker
sequences = record { chain_id = 5 ∷ []; high_water_marks = (alice, 3) ∷ [] }

abbrev request : ℕ → Request
request n = record {
  now = 10;
  signer_vk = alice;
  sequence = pos n;
  target_chain_id = 5 ∷ [];
  valid_until = 20;
}

abbrev replayed : List Request
replayed =
    request 4
    ∷ request 4
    ∷ record (request 9) { now = 20 }
    ∷ record (request 5) { sequence = negsuc 0 }
    ∷ request 6
    ∷ []

validate_batch-Rises_example :
    Rises
      (lookup alice sequences.high_water_marks)
      (accepted_from (λ vk. vk) alice replayed (validate_batch (λ vk. vk) sequences replayed).1)
      (lookup alice (validate_batch (λ vk. vk) sequences replayed).0.high_water_marks)
validate_batch-Rises_example = validate_batch-Rises (λ vk. vk) sequences replayed alice
