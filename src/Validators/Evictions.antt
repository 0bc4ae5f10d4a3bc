-- ===== src/Validators/Evictions.antt =====
-- Evictions: who stays active, and what they leave unchanged.
use suwappu_lattice_protocol.Prelude.{
  ℕ, suc, ◌+◌, ◌≡◌, refl, sym, ap, ◌∙◌, subst, Bool, true, false, ◌||◌, Bool-cases, List, [], ◌∷◌,
  length, if◌then◌else◌, inl, inr, Bytes, bytes_eq, bytes_eq_refl, bytes_eq→eq, Result, ok, raise,
  key_error, arith,
}
use suwappu_lattice_protocol.Dict.{Dict, lookup, insert, lookup-insert}
use suwappu_lattice_protocol.Validators.{
  ValidatorInfo, ValidatorSet, make_validator_set, indices_by_fp, contains, is_key, evict,
  is_active, active_count, index_for, fp_for, bls_pk_for,
}

abbrev has_fp : Bytes → List ValidatorInfo → Bool
has_fp x [] = false
has_fp x (m ∷ ms) = bytes_eq m.writer_fp x || has_fp x ms

abbrev pub DifferentFps : List ValidatorInfo → Type 0
DifferentFps [] = Unit
DifferentFps (m ∷ ms) = (has_fp m.writer_fp ms ≡ false) × DifferentFps ms

-- The members that a set of validators takes for active.
unfoldable pub count_active : ValidatorSet → List ValidatorInfo → ℕ
count_active v [] = 0
count_active v (m ∷ ms) = (if is_active v m.writer_fp then 1 else 0) + count_active v ms

count : List Bytes → List ValidatorInfo → ℕ
count ev [] = 0
count ev (m ∷ ms) = (if contains m.writer_fp ev then 0 else 1) + count ev ms

indices_by_fp-is_key :
    (x : Bytes) (ms : List ValidatorInfo) (d : Dict ℕ)
    → is_key (lookup x (indices_by_fp ms d)) ≡ (has_fp x ms || is_key (lookup x d))
unfolding indices_by_fp is_key
indices_by_fp-is_key x [] d = refl
indices_by_fp-is_key x (m ∷ ms) d =
    indices_by_fp-is_key x ms (insert m.writer_fp m.validator_index d)
    ∙ ap (λ o. has_fp x ms || is_key o) (lookup-insert m.writer_fp x m.validator_index d)
    ∙ ground arith

or-false_right : (a b : Bool) → (a || b) ≡ false → b ≡ false
or-false_right true b h = absurd (cc)
or-false_right false b h = h

or-true_right : (a b : Bool) → b ≡ true → (a || b) ≡ true
or-true_right true b h = refl
or-true_right false b h = h

-- An eviction of a fingerprint that is no member's.
count-other :
    (x : Bytes) (ev : List Bytes) (ms : List ValidatorInfo)
    → has_fp x ms ≡ false
    → count (x ∷ ev) ms ≡ count ev ms
unfolding count contains
count-other x ev [] h = refl
count-other x ev (m ∷ ms) h = elim (Bool-cases (bytes_eq x m.writer_fp)) [
  | inl b ↦
      let e : x ≡ m.writer_fp = bytes_eq→eq x m.writer_fp b in
      absurd (let f = rw (sym e, bytes_eq_refl x) at h in cc)
  | inr b ↦
      let rest = count-other x ev ms (or-false_right (bytes_eq m.writer_fp x) (has_fp x ms) h) in
      rw b (omega (arith, rest))
]

-- One of a member's that is not evicted yet.
count-evicted :
    (x : Bytes) (ev : List Bytes) (ms : List ValidatorInfo)
    → DifferentFps ms
    → contains x ev ≡ false
    → has_fp x ms ≡ true
    → suc (count (x ∷ ev) ms) ≡ count ev ms
unfolding count contains
count-evicted x ev [] d n h = absurd (cc)
count-evicted x ev (m ∷ ms) (fresh, d) n h = elim (Bool-cases (bytes_eq x m.writer_fp)) [
  | inl b ↦
      let e : x ≡ m.writer_fp = bytes_eq→eq x m.writer_fp b in
      let rest = count-other x ev ms (ap (λ y. has_fp y ms) e ∙ fresh) in
      let free : contains m.writer_fp ev ≡ false = ap (λ y. contains y ev) (sym e) ∙ n in
      rw (b, free) (omega (arith, rest))
  | inr b ↦ elim (Bool-cases (bytes_eq m.writer_fp x)) [
    | inl c ↦
        let e : m.writer_fp ≡ x = bytes_eq→eq m.writer_fp x c in
        absurd (let f = rw (e, bytes_eq_refl x) at b in cc)
    | inr c ↦ let rest = count-evicted x ev ms d n (rw c at h) in rw b (omega (arith, rest))
  ]
]

count-none : (ms : List ValidatorInfo) → count [] ms ≡ length ms
unfolding count contains
count-none [] = refl
count-none (m ∷ ms) = omega (arith, count-none ms)

record IsEvicting (made : ValidatorSet) (v : ValidatorSet) : Type 0 where
  kept : v ≡ record made { evicted = v.evicted }
  counted : count v.evicted made.members + length v.evicted ≡ length made.members

abbrev pub outcome : ValidatorSet → Result ValidatorSet → ValidatorSet
outcome v (raise e) = v
outcome v (ok w) = w

-- `evict`, where a raise leaves the set as it was.
abbrev pub after : ValidatorSet → Bytes → ValidatorSet
after v x = outcome v (evict v x)

abbrev pub run : ValidatorSet → List Bytes → ValidatorSet
run v [] = v
run v (x ∷ xs) = run (after v x) xs

is_key-made :
    (epoch : ℕ) (ms : List ValidatorInfo) (v : ValidatorSet) (x : Bytes)
    → IsEvicting (make_validator_set epoch ms) v
    → is_key (lookup x v.fp_to_index) ≡ has_fp x ms
unfolding make_validator_set is_key lookup
is_key-made epoch ms v x h =
    ap (λ w. is_key (lookup x w.fp_to_index)) h.kept ∙ indices_by_fp-is_key x ms [] ∙ ground arith

after-IsEvicting :
    (epoch : ℕ) (ms : List ValidatorInfo) (v : ValidatorSet) (x : Bytes)
    → DifferentFps ms
    → IsEvicting (make_validator_set epoch ms) v
    → IsEvicting (make_validator_set epoch ms) (after v x)
unfolding evict make_validator_set
after-IsEvicting epoch ms v x d h =
    let made = make_validator_set epoch ms in
    let known = is_key-made epoch ms v x h in
    let to : (r : Result ValidatorSet)
        → evict v x ≡ r
        → IsEvicting made (outcome v r)
        → IsEvicting made (after v x) =
      λ r e. subst (λ r. IsEvicting made (outcome v r)) (sym e) in
    elim (Bool-cases (has_fp x ms)) [
      | inr b ↦
          let k : is_key (lookup x v.fp_to_index) ≡ false = known ∙ b in
          to (raise key_error) (rw k refl) h
      | inl b ↦
          let k : is_key (lookup x v.fp_to_index) ≡ true = known ∙ b in
          elim (Bool-cases (contains x v.evicted)) [
            | inl c ↦ to (ok v) (rw (k, c) refl) h
            | inr c ↦
                let step = count-evicted x v.evicted ms d c b in
                to (ok (record v { evicted = x ∷ v.evicted })) (rw (k, c) refl) (record {
                  kept =
                      ap {A = ValidatorSet} {B = ValidatorSet}
                        (λ w. record w { evicted = x ∷ v.evicted }) h.kept;
                  counted = omega (arith, step, h.counted);
                })
          ]
    ]

run-IsEvicting :
    (epoch : ℕ) (ms : List ValidatorInfo) (v : ValidatorSet) (xs : List Bytes)
    → DifferentFps ms
    → IsEvicting (make_validator_set epoch ms) v
    → IsEvicting (make_validator_set epoch ms) (run v xs)
run-IsEvicting epoch ms v [] d h = h
run-IsEvicting epoch ms v (x ∷ xs) d h =
    run-IsEvicting epoch ms (after v x) xs d (after-IsEvicting epoch ms v x d h)

made-IsEvicting :
    (epoch : ℕ) (ms : List ValidatorInfo)
    → IsEvicting (make_validator_set epoch ms) (make_validator_set epoch ms)
unfolding make_validator_set
made-IsEvicting epoch ms = record { kept = refl; counted = omega (arith, count-none ms) }

-- Where all members are known, the active ones are those that are not evicted.
count_active-count :
    (v : ValidatorSet) (ms : List ValidatorInfo)
    → ((x : Bytes) → has_fp x ms ≡ true → is_key (lookup x v.fp_to_index) ≡ true)
    → count_active v ms ≡ count v.evicted ms
unfolding count_active count is_active
count_active-count v [] known = refl
count_active-count v (m ∷ ms) known =
    let k = known m.writer_fp (rw (bytes_eq_refl m.writer_fp) refl) in
    let rest : count_active v ms ≡ count v.evicted ms =
      count_active-count v ms
        (λ x h. known x (or-true_right (bytes_eq m.writer_fp x) (has_fp x ms) h)) in
    elim (Bool-cases (contains m.writer_fp v.evicted)) [
      | inl b ↦ rw (k, b) (omega (arith, rest))
      | inr b ↦ rw (k, b) (omega (arith, rest))
    ]

-- From a new set of members with different fingerprints, after any evictions, unknown and repeated
-- ones included: `active_count` is the number of members that are active, and the quorum threshold
-- and the answers of `index_for`, `fp_for` and `bls_pk_for` are those of the new set.
pub run-active_count :
    (epoch : ℕ) (ms : List ValidatorInfo) (xs : List Bytes)
    → DifferentFps ms
    → (active_count (run (make_validator_set epoch ms) xs)
        ≡ count_active (run (make_validator_set epoch ms) xs) ms)
      × ((run (make_validator_set epoch ms) xs).quorum_threshold
          ≡ (make_validator_set epoch ms).quorum_threshold)
      × ((x : Bytes)
          → index_for (run (make_validator_set epoch ms) xs) x
            ≡ index_for (make_validator_set epoch ms) x)
      × ((i : ℕ)
          → (fp_for (run (make_validator_set epoch ms) xs) i
              ≡ fp_for (make_validator_set epoch ms) i)
            × (bls_pk_for (run (make_validator_set epoch ms) xs) i
                ≡ bls_pk_for (make_validator_set epoch ms) i))
unfolding active_count index_for fp_for bls_pk_for make_validator_set
run-active_count epoch ms xs d =
    let made = make_validator_set epoch ms in
    let v = run made xs in
    let h = run-IsEvicting epoch ms made xs d (made-IsEvicting epoch ms) in
    let active = count_active-count v ms (λ x b. is_key-made epoch ms v x h ∙ b) in
    let all = ap (λ w. length w.members) h.kept in
    (
      omega (arith, active, all, h.counted),
      ap (λ w. w.quorum_threshold) h.kept,
      λ x. ap (λ w. index_for w x) h.kept,
      λ i. (ap (λ w. fp_for w i) h.kept, ap (λ w. bls_pk_for w i) h.kept),
    )
