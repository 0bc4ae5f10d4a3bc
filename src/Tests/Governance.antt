-- ===== src/Tests/Governance.antt =====
-- Votes and a signer policy on which the theorems about governance are run.
use suwappu_lattice_protocol.Prelude.{
  ℕ, ◌+◌, ◌-◌, ◌/◌, ◌^◌, ◌<◌, arith, ◌*◌, ◌≤◌, ◌≡◌, ◌↔◌, refl, true, none, some, List, [], ◌∷◌,
  length, Bytes, bytes_discrete, Result, ok, raise,
}
use suwappu_lattice_protocol.Dict.{lookup, insert}
use suwappu_lattice_protocol.Merkle.Sth.{Mldsa}
use suwappu_lattice_protocol.Votes.{
  TransitionVote, VoteManager, make_vote_manager, operator_count, has_voted, votes_on,
  has_supermajority,
}
use suwappu_lattice_protocol.Votes.{
  cast_vote, register_operator, signature_fails, verify_transition_vote, is_operator, add_vote,
  open_ballot,
}
use suwappu_lattice_protocol.Votes.Double.{round_double, nearest, unit_in_last_place}
use suwappu_lattice_protocol.Votes.Distinct
use suwappu_lattice_protocol.Votes.Distinct.{DistinctVoters, run-supermajority}
use suwappu_lattice_protocol.Encoding.{
  finalize, both, counted, each, uint32, uint64, length_prefixed_bytes, pack_length, optional,
}
use suwappu_lattice_protocol.Policy.{
  sorted, place, str_leb, SignerEntry, ApprovalRule, SignerPolicy, canonical_bytes,
  is_signer_authorized,
}
use suwappu_lattice_protocol.Policy.Binding.{canonical_bytes-is_signer_authorized}
use suwappu_lattice_protocol.Tests.{alice, node}

-- A signature is the payload.
abbrev trusting : Mldsa
trusting = record { sign = λ sk m. m; verify = λ vk m s. true }

abbrev vote_by : Bytes → TransitionVote
vote_by h = record {
  voter_vk_hash = h;
  from_phase = 1 ∷ [];
  to_phase = 2 ∷ [];
  signature = [];
  timestamp = 7;
  voter_label = h;
}

abbrev vote_manager : VoteManager
vote_manager = record {
  ratio_significand = 6_004_799_503_160_661;
  ratio_exponent = 53;
  operators = [];
  votes = [];
}

vote_manager-made : make_vote_manager 6_004_799_503_160_661 53 ≡ ok vote_manager
unfolding make_vote_manager
vote_manager-made = refl

abbrev ballots : List Distinct.Call
ballots =
    Distinct.registers alice (1 ∷ [])
    ∷ Distinct.registers node (2 ∷ [])
    ∷ Distinct.casts (5 ∷ []) (vote_by (1 ∷ [])) none
    ∷ Distinct.casts (5 ∷ []) (vote_by (1 ∷ [])) none
    ∷ Distinct.casts (5 ∷ []) (vote_by (2 ∷ [])) (some (9 ∷ []))
    ∷ []

abbrev voted : VoteManager
voted = Distinct.run trusting vote_manager ballots

voted-few : operator_count voted < 2 ^ 53
unfolding cast_vote register_operator signature_fails verify_transition_vote is_operator has_voted
    votes_on add_vote open_ballot lookup insert bytes_discrete
voted-few = omega arith

run-supermajority_example :
    DistinctVoters (votes_on voted (5 ∷ []))
    × (has_supermajority voted (5 ∷ []) ≡ true
        → (1 ≤ operator_count voted)
          × (operator_count voted * 6_004_799_503_160_661 * 2 ^ 53
              ≤ length (votes_on voted (5 ∷ [])) * 2 ^ 53 * 2 ^ 53
                + operator_count voted * 6_004_799_503_160_661))
    × (1 ≤ operator_count voted
        → operator_count voted * 6_004_799_503_160_661 * 2 ^ 53
            + operator_count voted * 6_004_799_503_160_661
          ≤ length (votes_on voted (5 ∷ [])) * 2 ^ 53 * 2 ^ 53
        → has_supermajority voted (5 ∷ []) ≡ true)
    × (operator_count voted * 6_004_799_503_160_661 < 2 ^ 53
        → ((has_supermajority voted (5 ∷ []) ≡ true) ↔ (
            (1 ≤ operator_count voted)
            × (operator_count voted * 6_004_799_503_160_661
                ≤ length (votes_on voted (5 ∷ [])) * 2 ^ 53))))
run-supermajority_example =
    run-supermajority trusting 6_004_799_503_160_661 53 vote_manager ballots (5 ∷ [])
      vote_manager-made voted-few

-- Of three operators the double next to 2 / 3 requires two, and of a hundred the one next to 0.55
-- requires 56.
thresholds :
    ((round_double (3 * 6_004_799_503_160_661) + (2 ^ 53 - 1)) / 2 ^ 53 ≡ 2)
    × ((round_double (100 * 2_476_979_795_053_773) + (2 ^ 52 - 1)) / 2 ^ 52 ≡ 56)
unfolding round_double nearest unit_in_last_place
thresholds = (refl, refl)

abbrev signer : List Bytes → SignerEntry
signer roles = record {
  signer_id = alice;
  vk = 7 ∷ 8 ∷ [];
  roles = roles;
  valid_from = 2;
  valid_until = 9;
  predecessor_vk = none;
}

abbrev rule : List Bytes → ApprovalRule
rule roles = record {
  action_type = 67 ∷ [];
  required_roles = roles;
  min_signers = 1;
  max_age_seconds = 3_600;
}

-- A policy with its sets listed in some order.
abbrev policy : List Bytes → List Bytes → SignerPolicy
policy roles required = record {
  policy_id = [];
  policy_version = 4;
  signers = signer roles ∷ [];
  approval_rules = rule required ∷ [];
  policy_signature = [];
}

abbrev one_order : SignerPolicy
one_order = policy (alice ∷ node ∷ []) (node ∷ [])

abbrev other_order : SignerPolicy
other_order = policy (node ∷ alice ∷ node ∷ []) (node ∷ node ∷ [])

abbrev encoded : Result Bytes → Bytes
encoded (ok b) = b
encoded (raise e) = []

one_order-encoded : canonical_bytes one_order ≡ ok (encoded (canonical_bytes one_order))
unfolding canonical_bytes finalize both counted each uint32 uint64 length_prefixed_bytes pack_length
    optional sorted place str_leb bytes_discrete
one_order-encoded = refl

other_order-encoded : canonical_bytes other_order ≡ ok (encoded (canonical_bytes one_order))
unfolding canonical_bytes finalize both counted each uint32 uint64 length_prefixed_bytes pack_length
    optional sorted place str_leb bytes_discrete
other_order-encoded = refl

canonical_bytes-is_signer_authorized_example :
    (one_order.policy_version ≡ other_order.policy_version)
    × ((vk action : Bytes) (epoch : ℕ)
        → is_signer_authorized one_order vk action epoch
          ≡ is_signer_authorized other_order vk action epoch)
canonical_bytes-is_signer_authorized_example =
    canonical_bytes-is_signer_authorized one_order other_order (encoded (canonical_bytes one_order))
      one_order-encoded other_order-encoded
