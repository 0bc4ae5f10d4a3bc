-- ===== src/Votes/Distinct.antt =====
-- One vote for a key of a voter, and what a supermajority is.
use suwappu_lattice_protocol.Prelude.{
  ◌^◌, ◌<◌, ℕ, ◌+◌, ◌-◌, ◌*◌, ◌/◌, ◌≤◌, ◌≡◌, refl, sym, ap, subst, ◌∙◌, true, false, Option, inl,
  inr, List, [], ◌∷◌, ◌++◌, length, ltb, leb, if◌then◌else◌, Bytes, bytes_eq, ok, raise,
  value_error, ◌⊎◌, arith, ok-inj, Bool-cases, ◌&&◌, ◌||◌, ◌==◌, ◌↔◌,
}
use native.Mathlib.Nat.{div-lt_iff_lt-mul, one-le-pow}
use suwappu_lattice_protocol.Votes.Double.{round_double, round_double-exact, round_double-near}
use suwappu_lattice_protocol.Dict.{lookup, insert, lookup-insert}
use suwappu_lattice_protocol.Merkle.Sth.{Mldsa}
use suwappu_lattice_protocol.Votes.{
  TransitionVote, VoteManager, make_vote_manager, register_operator, operator_count, is_operator,
  has_voted, votes_on, get_tally, has_supermajority, add_vote, open_ballot, signature_fails,
  cast_vote, required_votes,
}

-- Every vote of the list is of another voter than those after it.
abbrev pub DistinctVoters : List TransitionVote → Type 0
DistinctVoters [] = Unit
DistinctVoters (v ∷ vs) = (has_voted v.voter_vk_hash vs ≡ false) × DistinctVoters vs

abbrev pub IsBallotBox : VoteManager → Type 0
IsBallotBox m = (key : Bytes) → DistinctVoters (votes_on m key)

bytes_eq_comm : (a b : Bytes) → bytes_eq a b ≡ bytes_eq b a
bytes_eq_comm a b = ground arith

has_voted-append :
    (h : Bytes) (vs : List TransitionVote) (v : TransitionVote)
    → has_voted h (vs ++ (v ∷ [])) ≡ (if has_voted h vs then true else bytes_eq v.voter_vk_hash h)
unfolding has_voted
has_voted-append h [] v = ground arith
has_voted-append h (u ∷ vs) v = ground (arith, has_voted-append h vs v)

DistinctVoters-append :
    (vs : List TransitionVote) (v : TransitionVote)
    → DistinctVoters vs
    → has_voted v.voter_vk_hash vs ≡ false
    → DistinctVoters (vs ++ (v ∷ []))
unfolding has_voted
DistinctVoters-append [] v d h = (refl, tt)
DistinctVoters-append (u ∷ vs) v d h =
    elim (Bool-cases (bytes_eq u.voter_vk_hash v.voter_vk_hash)) [
      | inl same ↦ absurd (let f = rw same at h in cc)
      | inr other ↦ (
        has_voted-append u.voter_vk_hash vs v
            ∙ rw (d.0, bytes_eq_comm v.voter_vk_hash u.voter_vk_hash, other) refl,
        DistinctVoters-append vs v d.1 (rw other at h),
      )
    ]

votes_on-insert :
    (m : VoteManager) (key j : Bytes) (vs : List TransitionVote)
    → votes_on (record m { votes = insert key vs m.votes }) j
      ≡ (if bytes_eq key j then vs else votes_on m j)
unfolding votes_on
votes_on-insert m key j vs = rw (lookup-insert key j vs m.votes) (ground arith)

set-IsBallotBox :
    (m : VoteManager) (key : Bytes) (vs : List TransitionVote)
    → IsBallotBox m
    → DistinctVoters vs
    → IsBallotBox (record m { votes = insert key vs m.votes })
set-IsBallotBox m key vs box d j = elim (Bool-cases (bytes_eq key j)) [
  | inl here ↦ rw (votes_on-insert m key j vs, here) d
  | inr other ↦ rw (votes_on-insert m key j vs, other) (box j)
]

ceil-le : (x d c : ℕ) → 1 ≤ d → ((x + (d - 1)) / d ≤ c) ↔ (x ≤ c * d)
ceil-le x d c h =
    let p = div-lt_iff_lt-mul {x = x + (d - 1)} {y = c + 1} h in
    let e : (c + 1) * d ≡ c * d + d = grind arith in
    (λ le. omega (arith, p.0 (omega arith), e), λ le. omega (arith, p.1 (omega (arith, e))))

reached : (r c t : ℕ) → ((leb r c && ltb 0 t) ≡ true) ↔ ((1 ≤ t) × (r ≤ c))
reached r c t = (λ e. (ground arith, ground arith), λ p. ground arith)

pub data Call : Type 0 where
  registers : Bytes → Bytes → Call
  casts : Bytes → TransitionVote → Option Bytes → Call

module _ (dsa : Mldsa) where
  -- The manager after a call, whether it returned or raised.
  abbrev pub after : VoteManager → Call → VoteManager
  after m (registers k h) = register_operator m k h
  after m (casts key vote vk) = (cast_vote dsa m key vote vk).0

  abbrev pub run : VoteManager → List Call → VoteManager
  run m [] = m
  run m (c ∷ cs) = run (after m c) cs

  -- The three ends of a vote.
  cast_vote-cases :
      (m : VoteManager) (key : Bytes) (vote : TransitionVote) (vk : Option Bytes)
      → (cast_vote dsa m key vote vk ≡ (m, raise value_error))
        ⊎ ((cast_vote dsa m key vote vk ≡ (open_ballot m key, raise value_error))
            ⊎ ((cast_vote dsa m key vote vk
                  ≡ (add_vote m key vote, ok (get_tally (add_vote m key vote) key)))
                × (has_voted vote.voter_vk_hash (votes_on m key) ≡ false)))
  unfolding cast_vote
  cast_vote-cases m key vote vk = elim (Bool-cases (signature_fails dsa vote vk)) [
    | inl bad ↦ inl (rw bad refl)
    | inr good ↦ elim (Bool-cases (is_operator vote.voter_vk_hash m.operators)) [
      | inr stranger ↦ inl (rw (good, stranger) refl)
      | inl known ↦ elim (Bool-cases (has_voted vote.voter_vk_hash (votes_on m key))) [
        | inl again ↦ inr (inl (rw (good, known, again) refl))
        | inr first ↦ inr (inr (rw (good, known, first) refl, first))
      ]
    ]
  ]

  after-IsBallotBox : (m : VoteManager) (c : Call) → IsBallotBox m → IsBallotBox (after m c)
  unfolding register_operator add_vote open_ballot votes_on
  after-IsBallotBox m (registers k h) box = box
  after-IsBallotBox m (casts key vote vk) box = elim (cast_vote-cases m key vote vk) [
    | inl e ↦ subst (λ p. IsBallotBox p.0) (sym e) box
    | inr (inl e) ↦ subst (λ p. IsBallotBox p.0) (sym e) (set-IsBallotBox m key _ box (box key))
    | inr (inr (e, first)) ↦
        subst (λ p. IsBallotBox p.0) (sym e)
          (set-IsBallotBox m key _ box (DistinctVoters-append _ vote (box key) first))
  ]

  run-IsBallotBox : (m : VoteManager) (cs : List Call) → IsBallotBox m → IsBallotBox (run m cs)
  run-IsBallotBox m [] box = box
  run-IsBallotBox m (c ∷ cs) box = run-IsBallotBox (after m c) cs (after-IsBallotBox m c box)

  -- No call changes the ratio.
  abbrev SameRatio : VoteManager → VoteManager → Type 0
  SameRatio m m' =
      (m'.ratio_significand ≡ m.ratio_significand) × (m'.ratio_exponent ≡ m.ratio_exponent)

  after-ratio : (m : VoteManager) (c : Call) → SameRatio m (after m c)
  unfolding register_operator add_vote open_ballot
  after-ratio m (registers k h) = (refl, refl)
  after-ratio m (casts key vote vk) = elim (cast_vote-cases m key vote vk) [
    | inl e ↦ subst (λ p. SameRatio m p.0) (sym e) (refl, refl)
    | inr (inl e) ↦ subst (λ p. SameRatio m p.0) (sym e) (refl, refl)
    | inr (inr (e, first)) ↦ subst (λ p. SameRatio m p.0) (sym e) (refl, refl)
  ]

  run-ratio :
      (m : VoteManager) (cs : List Call)
      → ((run m cs).ratio_significand ≡ m.ratio_significand)
        × ((run m cs).ratio_exponent ≡ m.ratio_exponent)
  run-ratio m [] = (refl, refl)
  run-ratio m (c ∷ cs) =
      let (a, b) = after-ratio m c in let (x, y) = run-ratio (after m c) cs in (x ∙ a, y ∙ b)

  -- What a manager that was made is.
  made :
      (significand exponent : ℕ) (m : VoteManager)
      → make_vote_manager significand exponent ≡ ok m
      → IsBallotBox m × (m.ratio_significand ≡ significand) × (m.ratio_exponent ≡ exponent)
  unfolding make_vote_manager votes_on lookup
  made significand exponent m h =
      elim (Bool-cases ((significand == 0) || ltb (2 ^ exponent) significand)) [
        | inl bad ↦ absurd (let f = rw bad at h in cc)
        | inr good ↦
            let e = ok-inj (rw good at h) in
            (
              subst IsBallotBox e (λ key. tt),
              sym (ap (λ x. x.ratio_significand) e),
              sym (ap (λ x. x.ratio_exponent) e),
            )
      ]

  -- From a new manager, whatever calls were made, with less than 2 ^ 53 operators: the votes for a
  -- transition are of distinct voters. A transition with a supermajority has operators, and votes of
  -- at least the required ratio of their number less a part of 1 / 2 ^ 53 of it; where there are
  -- operators, votes of the ratio and that part more are enough; and where the product of the number
  -- and the ratio's significand has at most 53 bits, the ratio itself is the threshold.
  pub run-supermajority :
      (significand exponent : ℕ) (m : VoteManager) (cs : List Call) (key : Bytes)
      → make_vote_manager significand exponent ≡ ok m
      → operator_count (run m cs) < 2 ^ 53
      → DistinctVoters (votes_on (run m cs) key)
        × (has_supermajority (run m cs) key ≡ true
            → (1 ≤ operator_count (run m cs))
              × (operator_count (run m cs) * significand * 2 ^ 53
                  ≤ length (votes_on (run m cs) key) * 2 ^ exponent * 2 ^ 53
                    + operator_count (run m cs) * significand))
        × (1 ≤ operator_count (run m cs)
            → operator_count (run m cs) * significand * 2 ^ 53
                + operator_count (run m cs) * significand
              ≤ length (votes_on (run m cs) key) * 2 ^ exponent * 2 ^ 53
            → has_supermajority (run m cs) key ≡ true)
        × (operator_count (run m cs) * significand < 2 ^ 53
            → ((has_supermajority (run m cs) key ≡ true) ↔ (
                (1 ≤ operator_count (run m cs))
                × (operator_count (run m cs) * significand
                    ≤ length (votes_on (run m cs) key) * 2 ^ exponent))))
  unfolding has_supermajority get_tally required_votes
  run-supermajority significand exponent m cs key h few =
      let (box, a, b) = made significand exponent m h in
      let (x, y) = run-ratio m cs in
      let total = operator_count (run m cs) in
      let count = length (votes_on (run m cs) key) in
      let product = round_double (total * significand) in
      let p = ceil-le product (2 ^ exponent) count (one-le-pow exponent 2 (omega arith)) in
      let r = reached ((product + (2 ^ exponent - 1)) / 2 ^ exponent) count total in
      let (over, under) = round_double-near (total * significand) in
      (
        run-IsBallotBox m cs box key,
        rw (x ∙ a, y ∙ b, round_double-exact total few)
            (λ e. let le = p.0 (r.0 e).1 in ((r.0 e).0, omega (arith, le, under))),
        rw (x ∙ a, y ∙ b, round_double-exact total few)
            (λ some enough. r.1 (some, p.1 (omega (arith, enough, over)))),
        λ small.
            rw (x ∙ a, y ∙ b, round_double-exact total few)
              (let same = round_double-exact (total * significand) small in
                (
                  λ e. let le = p.0 (r.0 e).1 in ((r.0 e).0, omega (arith, le, same)),
                  λ q. let le = q.1 in r.1 (q.0, p.1 (omega (arith, le, same))),
                )),
      )
