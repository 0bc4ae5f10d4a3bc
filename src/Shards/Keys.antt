-- ===== src/Shards/Keys.antt =====
-- The keys that the tracker holds.
use suwappu_lattice_protocol.Prelude.{
  suc, ◌+◌, ◌≤◌, ◌<◌, ◌≡◌, refl, sym, ap, ◌∙◌, Bool, true, false, not, ◌&&◌, ◌||◌, Bool-cases, List,
  [], ◌∷◌, ◌++◌, length, length-append, ltb-cases, inl, inr, Bytes, bytes_eq, bytes_eq_refl,
  bytes_eq→eq, raise, runtime_error, arith,
}
use suwappu_lattice_protocol.Shards.{
  KeyTracker, reset_poc_state, cek_tracking_limit, is_issued, discard, forget_oldest, generate_cek,
}

abbrev pub Different : List Bytes → Type 0
Different [] = Unit
Different (x ∷ xs) = (is_issued x xs ≡ false) × Different xs

is_issued-discard :
    (x o : Bytes) (ys : List Bytes)
    → is_issued x (discard o ys) ≡ (is_issued x ys && not (bytes_eq o x))
unfolding is_issued discard
is_issued-discard x o [] = refl
is_issued-discard x o (y ∷ ys) = elim (Bool-cases (bytes_eq o y)) [
  | inl b ↦
      let e : o ≡ y = bytes_eq→eq o y b in
      let rest = is_issued-discard x o ys in rw (b, rest, sym e) (ground arith)
  | inr b ↦
      let rest = is_issued-discard x o ys in
      elim (Bool-cases (bytes_eq y x)) [
        | inl c ↦
            let e : y ≡ x = bytes_eq→eq y x c in
            let other : bytes_eq o x ≡ false = ap (bytes_eq o) (sym e) ∙ b in rw (b, c, other) refl
        | inr c ↦ rw (b, c) rest
      ]
]

is_issued-append :
    (x k : Bytes) (ys : List Bytes)
    → is_issued x (ys ++ (k ∷ [])) ≡ (bytes_eq k x || is_issued x ys)
unfolding is_issued
is_issued-append x k [] = refl
is_issued-append x k (y ∷ ys) = let rest = is_issued-append x k ys in rw rest (ground arith)

append-Different :
    (k : Bytes) (ys : List Bytes)
    → Different ys
    → is_issued k ys ≡ false
    → Different (ys ++ (k ∷ []))
unfolding is_issued
append-Different k [] d h = (refl, tt)
append-Different k (y ∷ ys) (fresh, d) h = elim (Bool-cases (bytes_eq y k)) [
  | inl b ↦ absurd (let f = rw b at h in cc)
  | inr b ↦
      let rest : is_issued k ys ≡ false = rw b at h in
      elim (Bool-cases (bytes_eq k y)) [
        | inl c ↦
            let e : k ≡ y = bytes_eq→eq k y c in absurd (let f = rw (e, bytes_eq_refl y) at b in cc)
        | inr c ↦ (is_issued-append y k ys ∙ rw c fresh, append-Different k ys d rest)
      ]
]

and_true : (b : Bool) → (b && true) ≡ b
and_true true = refl
and_true false = refl

-- The set is of the keys in the queue, which are different and at most as many as the limit.
pub record IsTracking (t : KeyTracker) : Type 0 where
  pub same : (x : Bytes) → is_issued x t.issued_ceks ≡ is_issued x t.issued_ceks_order
  pub different : Different t.issued_ceks_order
  pub bounded : length t.issued_ceks_order ≤ cek_tracking_limit

forget_oldest-IsTracking :
    (issued order : List Bytes)
    → ((x : Bytes) → is_issued x issued ≡ is_issued x order)
    → Different order
    → length order ≤ suc cek_tracking_limit
    → 0 < length order
    → IsTracking (forget_oldest issued order)
unfolding forget_oldest is_issued
forget_oldest-IsTracking issued [] same d le pos = absurd (omega (arith, pos))
forget_oldest-IsTracking issued (o ∷ order) same (fresh, d) le pos = record {
  same = λ x.
      is_issued-discard x o issued
      ∙ ap (λ b. b && not (bytes_eq o x)) (same x)
      ∙ elim (Bool-cases (bytes_eq o x)) [
        | inl b ↦ rw b (sym (ap (λ y. is_issued y order) (sym (bytes_eq→eq o x b)) ∙ fresh))
        | inr b ↦ rw b (and_true (is_issued x order))
      ];
  different = d;
  bounded = omega (arith, le);
}

abbrev pub run : KeyTracker → List Bytes → KeyTracker
run t [] = t
run t (cek ∷ ceks) = run (generate_cek t cek).0 ceks

generate_cek-IsTracking :
    (t : KeyTracker) (cek : Bytes) → IsTracking t → IsTracking (generate_cek t cek).0
unfolding generate_cek is_issued
generate_cek-IsTracking t cek h =
    let order = t.issued_ceks_order ++ (cek ∷ []) in
    let long : length order ≡ length t.issued_ceks_order + 1 =
      length-append t.issued_ceks_order (cek ∷ []) in
    let bound = h.bounded in
    let same : (x : Bytes) → is_issued x (cek ∷ t.issued_ceks) ≡ is_issued x order = λ x.
      ap (λ b. bytes_eq cek x || b) (h.same x) ∙ sym (is_issued-append x cek t.issued_ceks_order) in
    elim (Bool-cases (is_issued cek t.issued_ceks)) [
      | inl b ↦ rw b h
      | inr b ↦
          let different =
            append-Different cek t.issued_ceks_order h.different (sym (h.same cek) ∙ b) in
          elim (ltb-cases cek_tracking_limit (length order)) [
            | inl (over, c) ↦
                rw (b, c)
                  (forget_oldest-IsTracking (cek ∷ t.issued_ceks) order same different
                    (omega (arith, long, bound)) (omega (arith, long)))
            | inr (under, c) ↦
                rw (b, c) (record { same = same; different = different; bounded = under })
          ]
    ]

run-IsTracking : (t : KeyTracker) (ceks : List Bytes) → IsTracking t → IsTracking (run t ceks)
run-IsTracking t [] h = h
run-IsTracking t (cek ∷ ceks) h =
    run-IsTracking (generate_cek t cek).0 ceks (generate_cek-IsTracking t cek h)

-- From the reset state, whatever keys the system draws: the set is of the keys in the queue, these
-- are different, at most as many as the limit, and a key that is among them is refused.
pub run-tracks :
    (ceks : List Bytes)
    → IsTracking (run reset_poc_state ceks)
      × ((cek : Bytes)
          → is_issued cek (run reset_poc_state ceks).issued_ceks_order ≡ true
          → generate_cek (run reset_poc_state ceks) cek
            ≡ (run reset_poc_state ceks, raise runtime_error))
unfolding generate_cek
run-tracks ceks =
    let h =
      run-IsTracking reset_poc_state ceks
        (record { same = λ x. refl; different = tt; bounded = omega arith }) in
    (h, λ cek there. let b = h.same cek ∙ there in rw b refl)
