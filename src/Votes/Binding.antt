-- ===== src/Votes/Binding.antt =====
-- What the signature on a vote does not bind.
use suwappu_lattice_protocol.Prelude.{
  suc, ◌+◌, ◌≡◌, refl, ap, ◌∙◌, true, false, some, inl, inr, [], ◌∷◌, ◌++◌, length, length-append,
  Bytes, bytes_eq, bytes_eq_refl, ok, arith, Bool-cases,
}
use suwappu_lattice_protocol.Dict.{Dict, lookup, insert, lookup-insert_self}
use suwappu_lattice_protocol.Merkle.Sth.{Mldsa}
use suwappu_lattice_protocol.Votes.{
  TransitionVote, VoteManager, Tally, register_operator, is_operator, has_voted, or_empty, votes_on,
  get_tally, add_vote, signature_fails, verify_transition_vote, vote_payload, cast_vote,
}

votes_on-add_vote :
    (m : VoteManager) (key : Bytes) (vote : TransitionVote)
    → votes_on (add_vote m key vote) key ≡ votes_on m key ++ (vote ∷ [])
unfolding votes_on add_vote
votes_on-add_vote m key vote = ap or_empty (lookup-insert_self key _ m.votes)

-- The key that the vote is checked with is not compared with the voter's hash, nor the transition
-- that the vote names with the one it is counted for: a vote in the name of a registered operator
-- that has not voted, signed with any key at all and for any phases, is counted for any transition.
cast_vote-unbound :
    (dsa : Mldsa) (m : VoteManager) (key vk : Bytes) (vote : TransitionVote)
    → dsa.verify vk (vote_payload vote.from_phase vote.to_phase vk) vote.signature ≡ true
    → is_operator vote.voter_vk_hash m.operators ≡ true
    → has_voted vote.voter_vk_hash (votes_on m key) ≡ false
    → (m' : VoteManager) × (t : Tally) × (cast_vote dsa m key vote (some vk) ≡ (m', ok t))
      × (t.vote_count ≡ length (votes_on m key) + 1)
      × (votes_on m' key ≡ votes_on m key ++ (vote ∷ []))
unfolding cast_vote get_tally signature_fails verify_transition_vote
cast_vote-unbound dsa m key vk vote signed known first =
    let added = votes_on-add_vote m key vote in
    (
      add_vote m key vote,
      get_tally (add_vote m key vote) key,
      rw (signed, known, first) refl,
      ap length added ∙ length-append (votes_on m key) (vote ∷ []),
      added,
    )

length-insert_known {ℓ} :
    {V : Type ℓ} (k : Bytes) (v w : V) (d : Dict V)
    → lookup k d ≡ some w
    → length (insert k v d) ≡ length d
unfolding lookup insert
length-insert_known k v w [] h = cc
length-insert_known k v w ((j, u) ∷ d) h = elim (Bool-cases (bytes_eq j k)) [
  | inl here ↦ rw here refl
  | inr other ↦ rw other (ap suc (length-insert_known k v w d (rw other at h)))
]

is_operator-insert : (k h : Bytes) (d : Dict Bytes) → is_operator h (insert k h d) ≡ true
unfolding is_operator insert
is_operator-insert k h [] = rw (bytes_eq_refl h) refl
is_operator-insert k h ((j, u) ∷ d) = elim (Bool-cases (bytes_eq j k)) [
  | inl here ↦ rw (here, bytes_eq_refl h) refl
  | inr other ↦ rw (other, is_operator-insert k h d) (ground arith)
]

-- Votes outlive a registration: an operator that registers a new key, under which nobody has voted,
-- can vote again with it, and the tally then counts one more vote of no more operators.
register_operator-votes_again :
    (dsa : Mldsa) (m : VoteManager) (id old_hash key vk : Bytes) (vote : TransitionVote)
    → lookup id m.operators ≡ some old_hash
    → dsa.verify vk (vote_payload vote.from_phase vote.to_phase vk) vote.signature ≡ true
    → has_voted vote.voter_vk_hash (votes_on m key) ≡ false
    → (m' : VoteManager) × (t : Tally) × (cast_vote dsa
          (register_operator m id vote.voter_vk_hash)
          key
          vote
          (some vk)
        ≡ (m', ok t))
      × (t.vote_count ≡ (get_tally m key).vote_count + 1)
      × (t.total_operators ≡ (get_tally m key).total_operators)
unfolding register_operator get_tally votes_on add_vote cast_vote signature_fails
    verify_transition_vote
register_operator-votes_again dsa m id old_hash key vk vote known signed first =
    let added = votes_on-add_vote (register_operator m id vote.voter_vk_hash) key vote in
    let now = is_operator-insert id vote.voter_vk_hash m.operators in
    let m' = add_vote (register_operator m id vote.voter_vk_hash) key vote in
    (
      m',
      get_tally m' key,
      rw (signed, now, first) refl,
      ap length added ∙ length-append (votes_on m key) (vote ∷ []),
      length-insert_known id vote.voter_vk_hash old_hash m.operators known,
    )
