-- ===== src/Writers/Calls.antt =====
-- Every call of the registry keeps the audit logs.
use suwappu_lattice_protocol.Prelude.{
  ℕ, ◌≡◌, refl, subst, true, false, some, inl, inr, List, [], ◌∷◌, ◌++◌, Bytes, Result, ok, raise,
  bind-eq_ok, ok-inj, Bool-cases,
}
use suwappu_lattice_protocol.Dict.{lookup-insert_self}
use suwappu_lattice_protocol.Writers.{
  TransitionEntry, validate_writer_transition, active, expired, suspended, revoked, WriterIdentity,
  WriterRecord, WriterRegistry, has, is_present, find_writer, put, enroll, transition, update,
  approve, sponsor, promote, suspend, reinstate, mark_revoked, revoke, renew, to_expire, proceed,
  expire_all, check_expirations,
}
use suwappu_lattice_protocol.Writers.Audit.{
  IsRegistry, enrolled, Keeps, transition-Keeps, then-Keeps, approved-Keeps, sponsored_by-Keeps,
  put-IsRegistry, update-IsRegistry,
}

pub data Call : Type 0 where
  enrol : WriterIdentity → ℕ → Call
  approves sponsors reinstates renews : Bytes → Bytes → ℕ → Call
  revokes : Bytes → Bytes → ℕ → Call
  promotes : Bytes → ℕ → Call
  suspends : Bytes → Bytes → Bytes → ℕ → Call
  expires : ℕ → Call

abbrev pub kept : WriterRegistry → Result (WriterRegistry × WriterRecord) → WriterRegistry
kept g (ok p) = p.0
kept g (raise e) = g

-- The registry after a call, whether it returned or raised.
unfoldable pub after : WriterRegistry → Call → WriterRegistry
after g (enrol who now) = kept g (enroll g who now)
after g (approves fp by now) = kept g (approve g fp by now)
after g (sponsors fp by now) = kept g (sponsor g fp by now)
after g (reinstates fp by now) = kept g (reinstate g fp by now)
after g (renews fp by now) = kept g (renew g fp by now)
after g (revokes fp by now) = kept g (revoke g fp by now)
after g (promotes fp now) = kept g (promote g fp now)
after g (suspends fp reason by now) = kept g (suspend g fp reason by now)
after g (expires epoch) = (check_expirations g epoch).0

kept-IsRegistry :
    (g : WriterRegistry) (x : Result (WriterRegistry × WriterRecord))
    → IsRegistry g
    → ((p : WriterRegistry × WriterRecord) → x ≡ ok p → IsRegistry p.0)
    → IsRegistry (kept g x)
kept-IsRegistry g (ok p) reg h = h p refl
kept-IsRegistry g (raise e) reg h = reg

kept-update :
    (g : WriterRegistry) (k : Bytes) (change : WriterRecord → Result WriterRecord)
    → Keeps change
    → IsRegistry g
    → IsRegistry (kept g (update g k change))
kept-update g k change safe reg =
    kept-IsRegistry g (update g k change) reg (λ p h. update-IsRegistry g k change p h safe reg)

enroll-IsRegistry :
    (g : WriterRegistry) (who : WriterIdentity) (now : ℕ)
    → IsRegistry g
    → IsRegistry (kept g (enroll g who now))
unfolding enroll
enroll-IsRegistry g who now reg = elim (Bool-cases (has who.fingerprint g.revoked_fps)) [
  | inl gone ↦ rw gone reg
  | inr clear ↦ elim (Bool-cases (is_present (find_writer g who.fingerprint))) [
    | inl there ↦ rw (clear, there) reg
    | inr free ↦ rw (clear, free) (put-IsRegistry g who.fingerprint _ reg enrolled)
  ]
]

revoke-IsRegistry :
    (g : WriterRegistry) (fp by : Bytes) (now : ℕ)
    → IsRegistry g
    → IsRegistry (kept g (revoke g fp by now))
unfolding revoke mark_revoked find_writer
revoke-IsRegistry g fp by now reg = kept-IsRegistry g (revoke g fp by now) reg (λ p h.
    let (q, a, b) =
      bind-eq_ok (update g fp (transition revoked by now)) (λ p. ok (mark_revoked fp p)) h in
    subst (λ q. IsRegistry q.0) (ok-inj b)
      (update-IsRegistry g fp (transition revoked by now) q a (transition-Keeps revoked by now)
        reg))

proceed-IsRegistry :
    (g : WriterRegistry) (x : Result (WriterRegistry × WriterRecord))
    (rest : WriterRegistry → WriterRegistry × Result (Unit {0}))
    → IsRegistry g
    → IsRegistry (kept g x)
    → ((v : WriterRegistry) → IsRegistry v → IsRegistry (rest v).0)
    → IsRegistry (proceed g x rest).0
proceed-IsRegistry g (ok p) rest reg here later = later p.0 here
proceed-IsRegistry g (raise e) rest reg here later = reg

expire_all-IsRegistry :
    (g : WriterRegistry) (epoch : ℕ) (fps : List Bytes)
    → IsRegistry g
    → IsRegistry (expire_all g epoch fps).0
unfolding expire_all
expire_all-IsRegistry g epoch [] reg = reg
expire_all-IsRegistry g epoch (fp ∷ fps) reg =
    proceed-IsRegistry g (update g fp (transition expired fp epoch)) _ reg
      (kept-update g fp (transition expired fp epoch) (transition-Keeps expired fp epoch) reg)
      (λ v h. expire_all-IsRegistry v epoch fps h)

-- Every call of the registry, also one that raises, leaves each writer's audit log a path of valid
-- transitions from enrolment to the state the writer is in, where the logs were that before it.
pub after-IsRegistry : (g : WriterRegistry) (c : Call) → IsRegistry g → IsRegistry (after g c)
unfolding after approve sponsor promote suspend reinstate renew check_expirations
after-IsRegistry g (enrol who now) reg = enroll-IsRegistry g who now reg
after-IsRegistry g (approves fp by now) reg = kept-update g fp _ (approved-Keeps by now) reg
after-IsRegistry g (sponsors fp by now) reg = kept-update g fp _ (sponsored_by-Keeps g by now) reg
after-IsRegistry g (reinstates fp by now) reg =
    kept-update g fp _
      (then-Keeps (transition active by now) _ (transition-Keeps active by now) (λ q t. t)) reg
after-IsRegistry g (renews fp by now) reg = kept-update g fp _ (transition-Keeps active by now) reg
after-IsRegistry g (revokes fp by now) reg = revoke-IsRegistry g fp by now reg
after-IsRegistry g (promotes fp now) reg =
    kept-update g fp _ (λ r s h t. transition-Keeps active r.identity.fingerprint now r s h t) reg
after-IsRegistry g (suspends fp reason by now) reg =
    kept-update g fp _
      (then-Keeps (transition suspended by now) _ (transition-Keeps suspended by now) (λ q t. t))
      reg
after-IsRegistry g (expires epoch) reg =
    expire_all-IsRegistry g epoch (to_expire epoch g.records) reg

find_writer-put :
    (g : WriterRegistry) (k : Bytes) (r : WriterRecord) → find_writer (put g k r) k ≡ some r
unfolding find_writer put
find_writer-put g k r = lookup-insert_self k r g.records

-- `promote` takes a writer to ACTIVE from every state that may become ACTIVE, so from PENDING and
-- SUSPENDED too, and leaves its suspension reason.
promote-ok :
    (g : WriterRegistry) (k : Bytes) (now : ℕ) (r : WriterRecord)
    → find_writer g k ≡ some r
    → validate_writer_transition r.state active ≡ true
    → (p : WriterRegistry × WriterRecord) × (promote g k now ≡ ok p)
      × (find_writer p.0 k ≡ some p.1)
      × (p.1.state ≡ active)
      × (p.1.suspension_reason ≡ r.suspension_reason)
unfolding promote update transition
promote-ok g k now r there legal =
    let entry : TransitionEntry = record {
      timestamp = now;
      from_state = r.state;
      to_state = active;
      actor_fp = r.identity.fingerprint;
      is_emergency = false;
    } in
    let s : WriterRecord = record r {
      transition_log = r.transition_log ++ (entry ∷ []);
      state = active;
    } in
    ((put g k s, s), rw (there, legal) refl, find_writer-put g k s, refl, refl)
