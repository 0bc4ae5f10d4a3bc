-- ===== src/Tests/Validators.antt =====
-- Sets of validators on which their theorems are run.
use suwappu_lattice_protocol.Prelude.{
  ℕ, ◌+◌, ◌-◌, ◌/◌, ◌%◌, ◌<◌, ◌≡◌, refl, List, [], ◌∷◌, length, Bytes, bytes_discrete, ok, arith,
}
use suwappu_lattice_protocol.Dict.{lookup, insert}
use suwappu_lattice_protocol.Validators.{
  ValidatorInfo, enumerate, make_validator_set, from_roster, quorum, indices_by_fp, put_all, put,
  find, or_key_error, active_count, index_for, fp_for, bls_pk_for,
}
use suwappu_lattice_protocol.Validators.Evictions.{count_active, run, run-active_count}
use suwappu_lattice_protocol.Validators.Quorums.{listed, common, quorum_threshold-common}

abbrev roster : List (Bytes × Bytes)
roster = (1 ∷ [], []) ∷ (2 ∷ [], []) ∷ (3 ∷ [], []) ∷ (4 ∷ [], []) ∷ []

abbrev one_to_four : List ValidatorInfo
one_to_four =
    record { writer_fp = 1 ∷ []; bls_pk = []; validator_index = 0 }
    ∷ record { writer_fp = 2 ∷ []; bls_pk = []; validator_index = 1 }
    ∷ record { writer_fp = 3 ∷ []; bls_pk = []; validator_index = 2 }
    ∷ record { writer_fp = 4 ∷ []; bls_pk = []; validator_index = 3 }
    ∷ []

roster_members : (from_roster 7 roster).members ≡ one_to_four
unfolding from_roster make_validator_set enumerate
roster_members = refl

roster_indices :
    (index_for (from_roster 7 roster) (3 ∷ []) ≡ ok 2)
    × (fp_for (from_roster 7 roster) 2 ≡ ok (3 ∷ []))
unfolding from_roster make_validator_set enumerate index_for fp_for indices_by_fp put_all put find
    or_key_error lookup insert bytes_discrete
roster_indices = (refl, refl)

run-active_count_example :
    (active_count (run (make_validator_set 7 one_to_four) ((3 ∷ []) ∷ (9 ∷ []) ∷ (3 ∷ []) ∷ []))
      ≡ count_active
          (run (make_validator_set 7 one_to_four) ((3 ∷ []) ∷ (9 ∷ []) ∷ (3 ∷ []) ∷ []))
          one_to_four)
    × ((run
          (make_validator_set 7 one_to_four)
          ((3 ∷ []) ∷ (9 ∷ []) ∷ (3 ∷ []) ∷ [])).quorum_threshold
        ≡ (make_validator_set 7 one_to_four).quorum_threshold)
    × ((x : Bytes)
        → index_for (run (make_validator_set 7 one_to_four) ((3 ∷ []) ∷ (9 ∷ []) ∷ (3 ∷ []) ∷ [])) x
          ≡ index_for (make_validator_set 7 one_to_four) x)
    × ((i : ℕ)
        → (fp_for (run (make_validator_set 7 one_to_four) ((3 ∷ []) ∷ (9 ∷ []) ∷ (3 ∷ []) ∷ [])) i
            ≡ fp_for (make_validator_set 7 one_to_four) i)
          × (bls_pk_for
                (run (make_validator_set 7 one_to_four) ((3 ∷ []) ∷ (9 ∷ []) ∷ (3 ∷ []) ∷ []))
                i
              ≡ bls_pk_for (make_validator_set 7 one_to_four) i))
unfolding bytes_discrete
run-active_count_example =
    run-active_count 7 one_to_four ((3 ∷ []) ∷ (9 ∷ []) ∷ (3 ∷ []) ∷ [])
      (refl, (refl, (refl, (refl, tt))))

quorum_threshold-common_example :
    (length one_to_four - 1) / 3
    < length (common (0 ∷ 1 ∷ 2 ∷ []) (3 ∷ 2 ∷ 1 ∷ [])) + (length one_to_four - 1) % 3
unfolding make_validator_set quorum listed
quorum_threshold-common_example =
    quorum_threshold-common 7 one_to_four (0 ∷ 1 ∷ 2 ∷ []) (3 ∷ 2 ∷ 1 ∷ []) (omega arith)
      (refl, (refl, (refl, tt))) (refl, (refl, (refl, tt)))
      (omega arith, (omega arith, (omega arith, tt)))
      (omega arith, (omega arith, (omega arith, tt))) (omega arith) (omega arith)

-- Of six validators, two quorums can have no member in common.
six_disjoint : (quorum 6 ≡ 3) × (common (0 ∷ 1 ∷ 2 ∷ []) (3 ∷ 4 ∷ 5 ∷ []) ≡ [])
unfolding quorum common listed
six_disjoint = (refl, refl)
