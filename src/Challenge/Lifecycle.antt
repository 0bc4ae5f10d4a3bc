-- ===== src/Challenge/Lifecycle.antt =====
-- The states a challenge window goes through.
use suwappu_lattice_protocol.Prelude.{
  ℕ, ◌≡◌, ◌≤◌, refl, sym, ap, subst, Bool, true, false, Option, none, some, inl, inr, [], ◌∷◌,
  length, ltb, ltb-cases, ◌==◌, if◌then◌else◌, Bytes, bytes_eq, bytes_eq→eq, Result, ok, raise,
  ◌>>=◌, ok-inj, Bool-cases,
}
use suwappu_lattice_protocol.Dict.{Dict, lookup, lookup-insert}
use suwappu_lattice_protocol.Challenge.{
  ChallengeStatus, opened, challenged, resolved, finalized, expired, Resolution, ChallengeRecord,
  FraudProof, ChallengeManager, valid_transition, is_active, get, put, transition, is_open_already,
  open_challenge_window, challenge, update, submit_challenge, resolve, is_answer, resolve_challenge,
  finalize, resolve_with_proof, ticked, tick_record, tick_all, tick_time, tick,
}

pub data Call : Type 0 where
  open_window : ℕ → Bytes → Bytes → Call
  submit : ℕ → Bytes → FraudProof → Bytes → Call
  answer : ℕ → Bytes → Resolution → Call
  prove : ℕ → Bytes → Bool → Call
  pass : Option ℕ → ℕ → Call

abbrev pub changed :
    ChallengeManager → Result (ChallengeManager × ChallengeRecord) → ChallengeManager
changed m (ok p) = p.0
changed m (raise e) = m

-- The manager after a call, whether it returned or raised.
unfoldable pub after : ChallengeManager → Call → ChallengeManager
after m (open_window now k digest) = changed m (open_challenge_window m now k digest)
after m (submit now k proof who) = changed m (submit_challenge m now k proof who)
after m (answer now k how) = changed m (resolve_challenge m now k how)
after m (prove now k verified) = changed m (resolve_with_proof m now k verified)
after m (pass now clock) = (tick m now clock).0

abbrev pub status_of : Option ChallengeRecord → Option ChallengeStatus
status_of none = none
status_of (some r) = some r.status

-- The changes of status that the diagram has, with the opening of a window that is not active.
pub data Moves : Option ChallengeStatus → Option ChallengeStatus → Type 0 where
  stays : {s : Option ChallengeStatus} → Moves s s
  starts : Moves none (some opened)
  restarts : {s : ChallengeStatus} → is_active s ≡ false → Moves (some s) (some opened)
  goes : {s t : ChallengeStatus} → valid_transition s t ≡ true → Moves (some s) (some t)

pub get-put :
    (m : ChallengeManager) (k j : Bytes) (r : ChallengeRecord)
    → get (put m k r) j ≡ (if bytes_eq k j then some r else get m j)
unfolding get put
get-put m k j r = lookup-insert k j r m.records

Moves-put :
    (m : ChallengeManager) (k j : Bytes) (r : ChallengeRecord)
    → Moves (status_of (get m k)) (some r.status)
    → Moves (status_of (get m j)) (status_of (get (put m k r) j))
Moves-put m k j r h = elim (Bool-cases (bytes_eq k j)) [
  | inl e ↦
      rw (get-put m k j r, e)
        (subst (λ i. Moves (status_of (get m i)) (some r.status)) (bytes_eq→eq k j e) h)
  | inr ne ↦ rw (get-put m k j r, ne) stays
]

abbrev Changes : (ChallengeRecord → Result ChallengeRecord) → Type 0
Changes change = (r s : ChallengeRecord) → change r ≡ ok s → Moves (some r.status) (some s.status)

Moves-result :
    (m : ChallengeManager) (k j : Bytes) (r : ChallengeRecord) (x : Result ChallengeRecord)
    → get m k ≡ some r
    → ((s : ChallengeRecord) → x ≡ ok s → Moves (some r.status) (some s.status))
    → Moves (status_of (get m j)) (status_of (get (changed m (x >>= (λ s. ok (put m k s, s)))) j))
Moves-result m k j r (raise f) e legal = stays
Moves-result m k j r (ok s) e legal = Moves-put m k j s (rw e (legal s refl))

Moves-update :
    (m : ChallengeManager) (k j : Bytes) (change : ChallengeRecord → Result ChallengeRecord)
    (o : Option ChallengeRecord)
    → get m k ≡ o
    → Changes change
    → Moves (status_of (get m j)) (status_of (get (changed m (update m k change)) j))
unfolding update
Moves-update m k j change none e legal = rw e stays
Moves-update m k j change (some r) e legal = rw e (Moves-result m k j r (change r) e (legal r))

valid-challenged : (s : ChallengeStatus) → valid_transition s challenged ≡ true → s ≡ opened
unfolding valid_transition
valid-challenged opened h = refl
valid-challenged challenged h = cc
valid-challenged resolved h = cc
valid-challenged finalized h = cc
valid-challenged expired h = cc

pub challenge-ok :
    (now : ℕ) (proof : FraudProof) (who : Bytes) (r s : ChallengeRecord)
    → challenge now proof who r ≡ ok s
    → (r.status ≡ opened)
      × (now ≤ r.challenge_deadline)
      × (proof.verified ≡ true)
      × (s.status ≡ challenged)
unfolding challenge transition
challenge-ok now proof who r s h = elim (ltb-cases r.challenge_deadline now) [
  | inl (past, late) ↦ absurd (let f = rw late at h in cc)
  | inr (le, early) ↦ elim (Bool-cases proof.verified) [
    | inr bad ↦ absurd (let f = rw (early, bad) at h in cc)
    | inl good ↦ elim (Bool-cases (valid_transition r.status challenged)) [
      | inl legal ↦ (
        valid-challenged r.status legal,
        le,
        good,
        sym (ap (λ q. q.status) (ok-inj (rw (early, good, legal) at h))),
      )
      | inr illegal ↦ absurd (let f = rw (early, good, illegal) at h in cc)
    ]
  ]
]

challenge-Moves : (now : ℕ) (proof : FraudProof) (who : Bytes) → Changes (challenge now proof who)
unfolding valid_transition
challenge-Moves now proof who r s h =
    let (was, le, good, is) = challenge-ok now proof who r s h in rw (was, is) (goes refl)

resolve-Moves : (now : ℕ) (how : Resolution) → Changes (resolve now how)
unfolding resolve transition
resolve-Moves now how r s h = elim (Bool-cases (valid_transition r.status resolved)) [
  | inl legal ↦
      subst (λ q. Moves (some r.status) (some q.status)) (ok-inj (rw legal at h)) (goes legal)
  | inr illegal ↦ absurd (let f = rw illegal at h in cc)
]

active-valid : (s : ChallengeStatus) → is_active s ≡ true → valid_transition s finalized ≡ true
unfolding is_active valid_transition
active-valid opened h = refl
active-valid challenged h = refl
active-valid resolved h = cc
active-valid finalized h = cc
active-valid expired h = cc

finalize-Moves : (now : ℕ) → Changes (finalize now)
unfolding finalize
finalize-Moves now r s h = elim (Bool-cases (is_active r.status)) [
  | inl active ↦
      subst (λ q. Moves (some r.status) (some q.status)) (ok-inj (rw active at h))
        (goes (active-valid r.status active))
  | inr over ↦ absurd (let f = rw over at h in cc)
]

ticked-Moves : (late : Bool) (s : ChallengeStatus) → Moves (some s) (some (ticked late s))
unfolding ticked valid_transition
ticked-Moves true opened = goes refl
ticked-Moves true challenged = goes refl
ticked-Moves true resolved = stays
ticked-Moves true finalized = stays
ticked-Moves true expired = stays
ticked-Moves false s = stays

abbrev pub tick_found : ℕ → Option ChallengeRecord → Option ChallengeRecord
tick_found time none = none
tick_found time (some r) = some (tick_record time r)

pub lookup-tick_all :
    (time : ℕ) (k : Bytes) (d : Dict ChallengeRecord)
    → lookup k (tick_all time d) ≡ tick_found time (lookup k d)
unfolding lookup tick_all
lookup-tick_all time k [] = refl
lookup-tick_all time k ((j, r) ∷ d) = elim (Bool-cases (bytes_eq j k)) [
  | inl e ↦ rw e refl
  | inr ne ↦ rw ne (lookup-tick_all time k d)
]

Moves-tick :
    (time : ℕ) (o : Option ChallengeRecord) → Moves (status_of o) (status_of (tick_found time o))
unfolding tick_record
Moves-tick time none = stays
Moves-tick time (some r) = ticked-Moves (ltb r.challenge_deadline time) r.status

Moves-open :
    (m : ChallengeManager) (k j : Bytes) (o : Option ChallengeRecord) (r : ChallengeRecord)
    → get m k ≡ o
    → r.status ≡ opened
    → is_open_already o ≡ false
    → Moves (status_of (get m j)) (status_of (get (put m k r) j))
Moves-open m k j none r e fresh h = Moves-put m k j r (rw (e, fresh) starts)
Moves-open m k j (some q) r e fresh h = Moves-put m k j r (rw (e, fresh) (restarts h))

open-Moves :
    (m : ChallengeManager) (now : ℕ) (k digest j : Bytes)
    → Moves
        (status_of (get m j))
        (status_of (get (changed m (open_challenge_window m now k digest)) j))
unfolding open_challenge_window
open-Moves m now k digest j = elim (Bool-cases (length digest == 32)) [
  | inl fits ↦ elim (Bool-cases (is_open_already (get m k))) [
    | inl busy ↦ rw (fits, busy) stays
    | inr free ↦ rw (fits, free) (Moves-open m k j (get m k) _ refl refl free)
  ]
  | inr wrong ↦ rw wrong stays
]

-- Every call takes the window of every entity along the diagram of valid transitions, leaves it
-- where it is, or opens one where none is active.
pub after-Moves :
    (m : ChallengeManager) (c : Call) (j : Bytes)
    → Moves (status_of (get m j)) (status_of (get (after m c) j))
unfolding after submit_challenge resolve_challenge resolve_with_proof tick get
after-Moves m (open_window now k digest) j = open-Moves m now k digest j
after-Moves m (submit now k proof who) j =
    Moves-update m k j _ (get m k) refl (challenge-Moves now proof who)
after-Moves m (answer now k how) j = elim (Bool-cases (is_answer how)) [
  | inl good ↦ rw good (Moves-update m k j _ (get m k) refl (resolve-Moves now how))
  | inr bad ↦ rw bad stays
]
after-Moves m (prove now k true) j = Moves-update m k j _ (get m k) refl (finalize-Moves now)
after-Moves m (prove now k false) j = stays
after-Moves m (pass now clock) j =
    rw (lookup-tick_all (tick_time now clock) j m.records)
      (Moves-tick (tick_time now clock) (lookup j m.records))
