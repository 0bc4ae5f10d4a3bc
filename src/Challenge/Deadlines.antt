-- ===== src/Challenge/Deadlines.antt =====
-- Challenges and deadlines.
use suwappu_lattice_protocol.Prelude.{
  ℕ, ◌≡◌, ◌≤◌, refl, sym, ap, subst, ◌∙◌, Bool, true, false, Option, none, some, inl, inr, ltb,
  ltb-cases, Bytes, bytes_eq_refl, ok, ◌>>=◌, bind-eq_ok, ok-inj,
}
use suwappu_lattice_protocol.Dict.{lookup}
use suwappu_lattice_protocol.Challenge.{
  ChallengeStatus, opened, challenged, resolved, finalized, expired, ChallengeRecord, FraudProof,
  ChallengeManager, is_active, get, found, challenge, update, submit_challenge, ticked, tick_record,
  tick_time, tick,
}
use suwappu_lattice_protocol.Challenge.Lifecycle.{
  challenge-ok, get-put, lookup-tick_all, tick_found,
}

found-ok : (o : Option ChallengeRecord) (r : ChallengeRecord) → found o ≡ ok r → o ≡ some r
found-ok none r h = cc
found-ok (some q) r h = ap some (ok-inj h)

-- A challenge that is accepted was filed by the deadline, with a proof that verifies, against a
-- window that was open; the record stored is the one returned, and it is challenged.
pub submit_challenge-ok :
    (m : ChallengeManager) (now : ℕ) (k : Bytes) (proof : FraudProof) (who : Bytes)
    (p : ChallengeManager × ChallengeRecord)
    → submit_challenge m now k proof who ≡ ok p
    → (r : ChallengeRecord) × (get m k ≡ some r)
      × (r.status ≡ opened)
      × (now ≤ r.challenge_deadline)
      × (proof.verified ≡ true)
      × (get p.0 k ≡ some p.1)
      × (p.1.status ≡ challenged)
unfolding submit_challenge update
submit_challenge-ok m now k proof who p h =
    let (s, both, stored) = bind-eq_ok (found (get m k) >>= challenge now proof who) _ h in
    let (r, there, accepted) = bind-eq_ok (found (get m k)) _ both in
    let (was, le, good, is) = challenge-ok now proof who r s accepted in
    (
      r,
      found-ok (get m k) r there,
      was,
      le,
      good,
      subst (λ q. get q.0 k ≡ some q.1) (ok-inj stored)
          (rw (get-put m k k s, bytes_eq_refl k) refl),
      subst (λ q. q.1.status ≡ challenged) (ok-inj stored) is,
    )

ticked-active :
    (late : Bool) (s : ChallengeStatus) → is_active (ticked late s) ≡ true → late ≡ false
unfolding ticked is_active
ticked-active false s h = refl
ticked-active true opened h = cc
ticked-active true challenged h = cc
ticked-active true resolved h = cc
ticked-active true finalized h = cc
ticked-active true expired h = cc

tick_found-active :
    (time : ℕ) (o : Option ChallengeRecord) (r : ChallengeRecord)
    → tick_found time o ≡ some r
    → is_active r.status ≡ true
    → time ≤ r.challenge_deadline
unfolding tick_record
tick_found-active time none r h live = cc
tick_found-active time (some q) r h live =
    let e : tick_record time q ≡ r = cc in
    elim (ltb-cases q.challenge_deadline time) [
      | inl (past, late) ↦ absurd (
          let f =
            ticked-active (ltb q.challenge_deadline time) q.status
              (subst (λ x. is_active x.status ≡ true) (sym e) live) in
          cc)
      | inr (le, early) ↦ subst (λ x. time ≤ x.challenge_deadline) e le
    ]

-- After a tick no window that is still open or challenged is past its deadline.
pub tick-closes :
    (m : ChallengeManager) (now : Option ℕ) (clock : ℕ) (k : Bytes) (r : ChallengeRecord)
    → get (tick m now clock).0 k ≡ some r
    → is_active r.status ≡ true
    → tick_time now clock ≤ r.challenge_deadline
unfolding tick get
tick-closes m now clock k r h live =
    tick_found-active (tick_time now clock) (lookup k m.records) r
      (sym (lookup-tick_all (tick_time now clock) k m.records) ∙ h) live
