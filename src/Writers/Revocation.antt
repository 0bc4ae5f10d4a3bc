-- ===== src/Writers/Revocation.antt =====
-- Revocation is for good.
use suwappu_lattice_protocol.Prelude.{
  ℕ, ◌≡◌, refl, sym, ap, subst, ◌∙◌, true, false, some, inl, inr, List, [], ◌∷◌, Bytes, bytes_eq,
  bytes_eq→eq, Result, ok, raise, value_error, ◌>>=◌, bind-eq_ok, ok-inj, Bool-cases,
}
use suwappu_lattice_protocol.Dict.{lookup-insert, lookup-insert_self}
use suwappu_lattice_protocol.Writers.{
  WriterState, pending, probation, active, suspended, expired, revoked, same_state,
  valid_writer_transition, validate_writer_transition, WriterIdentity, WriterRecord, WriterRegistry,
  has, is_present, get_or_raise, find_writer, put, enroll, transition, update, approved,
  sponsored_by, approve, sponsor, promote, suspend, reinstate, mark_revoked, revoke, renew,
  to_expire, proceed, expire_all, check_expirations,
}
use suwappu_lattice_protocol.Writers.Audit.{get_or_raise-ok}
use suwappu_lattice_protocol.Writers.Calls.{
  Call, enrol, approves, sponsors, reinstates, renews, revokes, promotes, suspends, expires, kept,
  after,
}

-- A writer that is registered and revoked.
abbrev pub IsRevoked : WriterRegistry → Bytes → Type 0
IsRevoked g k = (r : WriterRecord) × (find_writer g k ≡ some r) × (r.state ≡ revoked)

-- A change that a revoked writer is barred from.
abbrev Barred : (WriterRecord → Result WriterRecord) → Type 0
Barred change = (r s : WriterRecord) → r.state ≡ revoked → change r ≡ ok s → s.state ≡ revoked

terminal : (t : WriterState) → validate_writer_transition revoked t ≡ true → t ≡ revoked
unfolding validate_writer_transition valid_writer_transition same_state
terminal pending h = cc
terminal probation h = cc
terminal active h = cc
terminal suspended h = cc
terminal expired h = cc
terminal revoked h = refl

transition-Barred : (t : WriterState) (by : Bytes) (now : ℕ) → Barred (transition t by now)
unfolding transition
transition-Barred t by now r s out h = elim (Bool-cases (validate_writer_transition r.state t)) [
  | inl legal ↦ sym (ap (λ x. x.state) (ok-inj (rw legal at h))) ∙ terminal t (rw out at legal)
  | inr illegal ↦ absurd (let f = rw illegal at h in cc)
]

then-Barred :
    (f : WriterRecord → Result WriterRecord) (h : WriterRecord → WriterRecord)
    → Barred f
    → ((s : WriterRecord) → (h s).state ≡ s.state)
    → Barred (λ r. f r >>= (λ s. ok (h s)))
then-Barred f h bar same r s out e =
    let (q, a, b) = bind-eq_ok (f r) (λ s. ok (h s)) e in
    sym (ap (λ x. x.state) (ok-inj b)) ∙ same q ∙ bar r q out a

-- A change for which a writer must be pending.
pending_only :
    (change : WriterRecord → Result WriterRecord) (r s : WriterRecord)
    → same_state r.state pending ≡ false
    → (same_state r.state pending ≡ false → change r ≡ raise value_error)
    → change r ≡ ok s
    → s.state ≡ revoked
pending_only change r s other fails e = let f = fails other in cc

not_pending : (r : WriterRecord) → r.state ≡ revoked → same_state r.state pending ≡ false
unfolding same_state
not_pending r out = rw out refl

approved-Barred : (by : Bytes) (now : ℕ) → Barred (approved by now)
unfolding approved
approved-Barred by now r s out e =
    let other = not_pending r out in pending_only (approved by now) r s other (λ n. rw n refl) e

sponsored_by-Barred : (g : WriterRegistry) (by : Bytes) (now : ℕ) → Barred (sponsored_by g by now)
unfolding sponsored_by
sponsored_by-Barred g by now r s out e =
    let other = not_pending r out in
    pending_only (sponsored_by g by now) r s other (λ n. rw n refl) e

put-IsRevoked :
    (g : WriterRegistry) (j k : Bytes) (s : WriterRecord)
    → IsRevoked g k
    → (bytes_eq j k ≡ true → s.state ≡ revoked)
    → IsRevoked (put g j s) k
unfolding find_writer put
put-IsRevoked g j k s (r, there, out) h = elim (Bool-cases (bytes_eq j k)) [
  | inl here ↦ (s, lookup-insert j k s g.records ∙ rw here refl, h here)
  | inr other ↦ (r, lookup-insert j k s g.records ∙ rw other there, out)
]

update-IsRevoked :
    (g : WriterRegistry) (j k : Bytes) (change : WriterRecord → Result WriterRecord)
    (p : WriterRegistry × WriterRecord)
    → update g j change ≡ ok p
    → Barred change
    → IsRevoked g k
    → IsRevoked p.0 k
unfolding update
update-IsRevoked g j k change p h bar (r, there, out) =
    let (s, both, stored) = bind-eq_ok (get_or_raise (find_writer g j) >>= change) _ h in
    let (q, found, done) = bind-eq_ok (get_or_raise (find_writer g j)) _ both in
    subst (λ x. IsRevoked x.0 k) (ok-inj stored)
      (put-IsRevoked g j k s (r, there, out)
        (λ here.
          let same : q ≡ r = cc (
            get_or_raise-ok (find_writer g j) q found,
            ap (find_writer g) (bytes_eq→eq j k here),
            there,
          ) in
          bar q s (ap (λ x. x.state) same ∙ out) done))

kept-IsRevoked :
    (g : WriterRegistry) (k : Bytes) (x : Result (WriterRegistry × WriterRecord))
    → IsRevoked g k
    → ((p : WriterRegistry × WriterRecord) → x ≡ ok p → IsRevoked p.0 k)
    → IsRevoked (kept g x) k
kept-IsRevoked g k (ok p) out h = h p refl
kept-IsRevoked g k (raise e) out h = out

kept-update-IsRevoked :
    (g : WriterRegistry) (j k : Bytes) (change : WriterRecord → Result WriterRecord)
    → Barred change
    → IsRevoked g k
    → IsRevoked (kept g (update g j change)) k
kept-update-IsRevoked g j k change bar out =
    kept-IsRevoked g k (update g j change) out (λ p h. update-IsRevoked g j k change p h bar out)

proceed-IsRevoked :
    (g : WriterRegistry) (k : Bytes) (x : Result (WriterRegistry × WriterRecord))
    (rest : WriterRegistry → WriterRegistry × Result (Unit {0}))
    → IsRevoked g k
    → IsRevoked (kept g x) k
    → ((v : WriterRegistry) → IsRevoked v k → IsRevoked (rest v).0 k)
    → IsRevoked (proceed g x rest).0 k
proceed-IsRevoked g k (ok p) rest out here later = later p.0 here
proceed-IsRevoked g k (raise e) rest out here later = out

expire_all-IsRevoked :
    (g : WriterRegistry) (k : Bytes) (epoch : ℕ) (fps : List Bytes)
    → IsRevoked g k
    → IsRevoked (expire_all g epoch fps).0 k
unfolding expire_all
expire_all-IsRevoked g k epoch [] out = out
expire_all-IsRevoked g k epoch (fp ∷ fps) out =
    proceed-IsRevoked g k (update g fp (transition expired fp epoch)) _ out
      (kept-update-IsRevoked g fp k _ (transition-Barred expired fp epoch) out)
      (λ v h. expire_all-IsRevoked v k epoch fps h)

enroll-IsRevoked :
    (g : WriterRegistry) (k : Bytes) (who : WriterIdentity) (now : ℕ)
    → IsRevoked g k
    → IsRevoked (kept g (enroll g who now)) k
unfolding enroll
enroll-IsRevoked g k who now out = elim (Bool-cases (has who.fingerprint g.revoked_fps)) [
  | inl gone ↦ rw gone out
  | inr clear ↦ elim (Bool-cases (is_present (find_writer g who.fingerprint))) [
    | inl there ↦ rw (clear, there) out
    | inr free ↦
        rw (clear, free)
          (put-IsRevoked g who.fingerprint k _ out (λ here.
            let (r, known, x) = out in
            absurd (
              let f : false ≡ true =
                sym free
                ∙ ap (λ i. is_present (find_writer g i)) (bytes_eq→eq who.fingerprint k here)
                ∙ ap is_present known in
              cc)))
  ]
]

revoke-IsRevoked :
    (g : WriterRegistry) (k fp by : Bytes) (now : ℕ)
    → IsRevoked g k
    → IsRevoked (kept g (revoke g fp by now)) k
unfolding revoke mark_revoked find_writer
revoke-IsRevoked g k fp by now out = kept-IsRevoked g k (revoke g fp by now) out (λ p h.
    let (q, a, b) =
      bind-eq_ok (update g fp (transition revoked by now)) (λ p. ok (mark_revoked fp p)) h in
    subst (λ q. IsRevoked q.0 k) (ok-inj b)
      (update-IsRevoked g fp k (transition revoked by now) q a (transition-Barred revoked by now)
        out))

after-IsRevoked :
    (g : WriterRegistry) (c : Call) (k : Bytes) → IsRevoked g k → IsRevoked (after g c) k
unfolding after approve sponsor promote suspend reinstate renew check_expirations
after-IsRevoked g (enrol who now) k out = enroll-IsRevoked g k who now out
after-IsRevoked g (approves fp by now) k out =
    kept-update-IsRevoked g fp k _ (approved-Barred by now) out
after-IsRevoked g (sponsors fp by now) k out =
    kept-update-IsRevoked g fp k _ (sponsored_by-Barred g by now) out
after-IsRevoked g (reinstates fp by now) k out =
    kept-update-IsRevoked g fp k _ (then-Barred _ _ (transition-Barred active by now) (λ s. refl))
      out
after-IsRevoked g (renews fp by now) k out =
    kept-update-IsRevoked g fp k _ (transition-Barred active by now) out
after-IsRevoked g (revokes fp by now) k out = revoke-IsRevoked g k fp by now out
after-IsRevoked g (promotes fp now) k out =
    kept-update-IsRevoked g fp k _
      (λ r s x h. transition-Barred active r.identity.fingerprint now r s x h) out
after-IsRevoked g (suspends fp reason by now) k out =
    kept-update-IsRevoked g fp k _
      (then-Barred _ _ (transition-Barred suspended by now) (λ s. refl)) out
after-IsRevoked g (expires epoch) k out =
    expire_all-IsRevoked g k epoch (to_expire epoch g.records) out

abbrev pub run : WriterRegistry → List Call → WriterRegistry
run g [] = g
run g (c ∷ cs) = run (after g c) cs

run-IsRevoked :
    (g : WriterRegistry) (cs : List Call) (k : Bytes) → IsRevoked g k → IsRevoked (run g cs) k
run-IsRevoked g [] k out = out
run-IsRevoked g (c ∷ cs) k out = run-IsRevoked (after g c) cs k (after-IsRevoked g c k out)

IsRevoked-now :
    (g : WriterRegistry) (k by : Bytes) (now : ℕ) (p : WriterRegistry × WriterRecord)
    → revoke g k by now ≡ ok p
    → IsRevoked p.0 k
unfolding revoke update mark_revoked find_writer put transition
IsRevoked-now g k by now p h =
    let (q, done, marked) =
      bind-eq_ok (update g k (transition revoked by now)) (λ p. ok (mark_revoked k p)) h in
    let (s, both, stored) =
      bind-eq_ok (get_or_raise (find_writer g k) >>= transition revoked by now) _ done in
    let (r, there, moved) = bind-eq_ok (get_or_raise (find_writer g k)) _ both in
    let held : IsRevoked (put g k s) k = (
      s,
      lookup-insert_self k s g.records,
      elim (Bool-cases (validate_writer_transition r.state revoked)) [
        | inl legal ↦ sym (ap (λ x. x.state) (ok-inj (rw legal at moved)))
        | inr illegal ↦ absurd (let f = rw illegal at moved in cc)
      ],
    ) in
    subst (λ x. IsRevoked x.0 k) (ok-inj marked) (subst (λ x. IsRevoked x.0 k) (ok-inj stored) held)

enroll-refused :
    (g : WriterRegistry) (who : WriterIdentity) (now : ℕ)
    → IsRevoked g who.fingerprint
    → enroll g who now ≡ raise value_error
unfolding enroll
enroll-refused g who now (r, there, out) = elim (Bool-cases (has who.fingerprint g.revoked_fps)) [
  | inl gone ↦ rw gone refl
  | inr clear ↦ rw (clear, there) refl
]

-- Once a writer is revoked, then whatever calls follow, those that raise included, it is registered
-- and revoked, and enrolling its fingerprint again raises.
pub revoke-final :
    (g : WriterRegistry) (who : WriterIdentity) (by : Bytes) (now later : ℕ)
    (p : WriterRegistry × WriterRecord) (cs : List Call)
    → revoke g who.fingerprint by now ≡ ok p
    → IsRevoked (run p.0 cs) who.fingerprint × (enroll (run p.0 cs) who later ≡ raise value_error)
revoke-final g who by now later p cs h =
    let out = run-IsRevoked p.0 cs who.fingerprint (IsRevoked-now g who.fingerprint by now p h) in
    (out, enroll-refused (run p.0 cs) who later out)
