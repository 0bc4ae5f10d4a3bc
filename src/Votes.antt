-- ===== src/Votes.antt =====
-- Votes on phase transitions: `TransitionVote`, its signature and `TransitionVoteManager`
-- (src/ltp/governance.py). Phase names and hashes are the bytes of their UTF-8 text. ML-DSA and the
-- hash of a key are parameters. The required ratio, a double, is a significand below 2 ^ 53 over a
-- power of two. The client of the chain is told of a vote after the fact, and its failures are
-- swallowed: it is left out.
pub mod Double
pub mod Distinct
pub mod Binding
use suwappu_lattice_protocol.Votes.Double.{round_double}
use suwappu_lattice_protocol.Prelude.{
  ◌^◌, ℕ, ◌+◌, ◌-◌, ◌*◌, ◌/◌, Bool, true, false, Option, none, some, List, [], ◌∷◌, ◌++◌, length,
  ltb, leb, ◌==◌, ◌&&◌, ◌||◌, not, if◌then◌else◌, Bytes, bytes_eq, Result, ok, raise, value_error,
  ◌>>=◌,
}
use suwappu_lattice_protocol.Dict.{Dict, lookup, insert}
use suwappu_lattice_protocol.Merkle.Sth.{Mldsa}

pub record TransitionVote : Type 0 where
  pub voter_vk_hash : Bytes
  pub from_phase : Bytes
  pub to_phase : Bytes
  pub signature : Bytes
  pub timestamp : ℕ
  pub voter_label : Bytes

-- `DOMAIN_GOVERNANCE_VOTE`
abbrev pub domain_governance_vote : Bytes
domain_governance_vote =
    83 ∷ 85 ∷ 87 ∷ 65 ∷ 80 ∷ 80 ∷ 85 ∷ 45 ∷ 76 ∷ 84 ∷ 80 ∷ 58 ∷ 103 ∷ 111 ∷ 118 ∷ 101 ∷ 114 ∷ 110
    ∷ 97 ∷ 110 ∷ 99 ∷ 101 ∷ 45 ∷ 118 ∷ 111 ∷ 116 ∷ 101 ∷ 58 ∷ 118 ∷ 49 ∷ 0 ∷ []

unfoldable pub vote_payload : Bytes → Bytes → Bytes → Bytes
vote_payload from_phase to_phase vk = domain_governance_vote ++ (from_phase ++ (to_phase ++ vk))

unfoldable pub create_transition_vote :
    Mldsa → (Bytes → Bytes) → Bytes → Bytes → Bytes → Bytes → Bytes → ℕ → TransitionVote
create_transition_vote dsa canonical_hash vk sk label from_phase to_phase now = record {
  voter_vk_hash = canonical_hash vk;
  from_phase = from_phase;
  to_phase = to_phase;
  signature = dsa.sign sk (vote_payload from_phase to_phase vk);
  timestamp = now;
  voter_label = label;
}

unfoldable pub verify_transition_vote : Mldsa → TransitionVote → Bytes → Bool
verify_transition_vote dsa vote voter_vk =
    dsa.verify voter_vk (vote_payload vote.from_phase vote.to_phase voter_vk) vote.signature

-- The ratio is `ratio_significand / 2 ^ ratio_exponent`.
pub record VoteManager : Type 0 where
  pub ratio_significand : ℕ
  pub ratio_exponent : ℕ
  pub operators : Dict Bytes
  pub votes : Dict (List TransitionVote)

unfoldable pub make_vote_manager : ℕ → ℕ → Result VoteManager
make_vote_manager significand exponent =
    if (significand == 0) || ltb (2 ^ exponent) significand
    then raise value_error
    else ok (record {
      ratio_significand = significand;
      ratio_exponent = exponent;
      operators = [];
      votes = [];
    })

unfoldable pub register_operator : VoteManager → Bytes → Bytes → VoteManager
register_operator m operator_id vk_hash = record m {
  operators = insert operator_id vk_hash m.operators;
}

abbrev pub operator_count : VoteManager → ℕ
operator_count m = length m.operators

-- `in self._operators.values()`
unfoldable pub is_operator : Bytes → Dict Bytes → Bool
is_operator h [] = false
is_operator h ((k, v) ∷ d) = if bytes_eq v h then true else is_operator h d

-- `in existing`, the set of the voters so far
unfoldable pub has_voted : Bytes → List TransitionVote → Bool
has_voted h [] = false
has_voted h (v ∷ vs) = if bytes_eq v.voter_vk_hash h then true else has_voted h vs

abbrev pub or_empty : Option (List TransitionVote) → List TransitionVote
or_empty none = []
or_empty (some vs) = vs

unfoldable pub votes_on : VoteManager → Bytes → List TransitionVote
votes_on m transition_key = or_empty (lookup transition_key m.votes)

pub record Tally : Type 0 where
  pub vote_count : ℕ
  pub total_operators : ℕ
  pub required : ℕ
  pub supermajority : Bool

-- `math.ceil(total_operators * self._required_ratio)`: the number of operators becomes a double, the
-- product is rounded to one, and the ceiling of that is exact.
unfoldable pub required_votes : VoteManager → ℕ
required_votes m =
    let product = round_double (round_double (operator_count m) * m.ratio_significand) in
    (product + (2 ^ m.ratio_exponent - 1)) / 2 ^ m.ratio_exponent

unfoldable pub get_tally : VoteManager → Bytes → Tally
get_tally m transition_key =
    let count = length (votes_on m transition_key) in
    record {
      vote_count = count;
      total_operators = operator_count m;
      required = required_votes m;
      supermajority = leb (required_votes m) count && ltb 0 (operator_count m);
    }

unfoldable pub has_supermajority : VoteManager → Bytes → Bool
has_supermajority m transition_key = (get_tally m transition_key).supermajority

unfoldable pub add_vote : VoteManager → Bytes → TransitionVote → VoteManager
add_vote m transition_key vote = record m {
  votes = insert transition_key (votes_on m transition_key ++ (vote ∷ [])) m.votes;
}

-- What `setdefault` leaves behind.
unfoldable pub open_ballot : VoteManager → Bytes → VoteManager
open_ballot m transition_key = record m {
  votes = insert transition_key (votes_on m transition_key) m.votes;
}

module _ (dsa : Mldsa) where
  unfoldable pub signature_fails : TransitionVote → Option Bytes → Bool
  signature_fails vote none = false
  signature_fails vote (some voter_vk) = not (verify_transition_vote dsa vote voter_vk)

  -- A duplicate vote raises after the ballot was opened: the state comes with the exception.
  unfoldable pub cast_vote :
      VoteManager → Bytes → TransitionVote → Option Bytes → VoteManager × Result Tally
  cast_vote m transition_key vote voter_vk =
      if signature_fails vote voter_vk
      then (m, raise value_error)
      else if not (is_operator vote.voter_vk_hash m.operators)
      then (m, raise value_error)
      else if has_voted vote.voter_vk_hash (votes_on m transition_key)
      then (open_ballot m transition_key, raise value_error)
      else (
        add_vote m transition_key vote,
        ok (get_tally (add_vote m transition_key vote) transition_key),
      )
