-- ===== src/Writers/Audit.antt =====
-- The audit log of a writer: a path of valid transitions from enrolment to the state it is in.
use suwappu_lattice_protocol.Prelude.{
  ℕ, ◌≡◌, refl, ap, subst, true, Option, none, some, inl, inr, List, [], ◌∷◌, ◌++◌, Bytes, bytes_eq,
  Result, ok, ◌>>=◌, bind-eq_ok, ok-inj, Bool-cases, leb, length,
}
use suwappu_lattice_protocol.Dict.{lookup-insert}
use suwappu_lattice_protocol.Writers.{
  WriterState, pending, probation, active, same_state, valid_writer_transition,
  validate_writer_transition, TransitionEntry, WriterRecord, WriterRegistry, has, get_or_raise,
  find_writer, put, transition, update, approved, may_sponsor, weigh, sponsored_by,
}

-- A log that ends in a state: entries are appended, each from the state before it.
pub data Trail : List TransitionEntry → WriterState → Type 0 where
  enrolled : Trail [] pending
  moved :
      {l : List TransitionEntry} {s : WriterState} (e : TransitionEntry)
      → Trail l s
      → e.from_state ≡ s
      → valid_writer_transition s e.to_state ≡ true
      → Trail (l ++ (e ∷ [])) e.to_state

abbrev pub IsAudited : WriterRecord → Type 0
IsAudited r = Trail r.transition_log r.state

abbrev pub IsRegistry : WriterRegistry → Type 0
IsRegistry g = (k : Bytes) (r : WriterRecord) → find_writer g k ≡ some r → IsAudited r

abbrev pub Keeps : (WriterRecord → Result WriterRecord) → Type 0
Keeps change = (r s : WriterRecord) → change r ≡ ok s → IsAudited r → IsAudited s

pub validate_writer_transition-valid :
    (s t : WriterState) → validate_writer_transition s t ≡ true → valid_writer_transition s t ≡ true
unfolding validate_writer_transition
validate_writer_transition-valid s t h = elim (Bool-cases (same_state s t)) [
  | inl same ↦ absurd (let f = rw same at h in cc)
  | inr other ↦ rw other at h
]

pub transition-Keeps : (t : WriterState) (actor : Bytes) (now : ℕ) → Keeps (transition t actor now)
unfolding transition
transition-Keeps t actor now r s h trail =
    elim (Bool-cases (validate_writer_transition r.state t)) [
      | inl legal ↦
          subst IsAudited (ok-inj (rw legal at h))
            (moved _ trail refl (validate_writer_transition-valid r.state t legal))
      | inr illegal ↦ absurd (let f = rw illegal at h in cc)
    ]

pub then-Keeps :
    (f : WriterRecord → Result WriterRecord) (h : WriterRecord → WriterRecord)
    → Keeps f
    → ((s : WriterRecord) → IsAudited s → IsAudited (h s))
    → Keeps (λ r. f r >>= (λ s. ok (h s)))
then-Keeps f h first last r s e trail =
    let (q, a, b) = bind-eq_ok (f r) (λ s. ok (h s)) e in
    subst IsAudited (ok-inj b) (last q (first r q a trail))

pub approved-Keeps : (by : Bytes) (now : ℕ) → Keeps (approved by now)
unfolding approved
approved-Keeps by now r s h trail = elim (Bool-cases (same_state r.state pending)) [
  | inl new ↦
      then-Keeps (transition active by now) _ (transition-Keeps active by now) (λ q t. t) r s
        (rw new at h) trail
  | inr old ↦ absurd (let f = rw old at h in cc)
]

weigh-Keeps : (g : WriterRegistry) (by : Bytes) (now : ℕ) → Keeps (weigh g.config by now)
unfolding weigh
weigh-Keeps g by now r s h trail =
    elim (Bool-cases (leb g.config.sponsor_threshold (length r.sponsors))) [
      | inl met ↦
          then-Keeps (transition probation by now) _ (transition-Keeps probation by now) (λ q t. t)
            r s (rw met at h) trail
      | inr short ↦ subst IsAudited (ok-inj (rw short at h)) trail
    ]

pub sponsored_by-Keeps : (g : WriterRegistry) (by : Bytes) (now : ℕ) → Keeps (sponsored_by g by now)
unfolding sponsored_by
sponsored_by-Keeps g by now r s h trail = elim (Bool-cases (same_state r.state pending)) [
  | inr old ↦ absurd (let f = rw old at h in cc)
  | inl new ↦ elim (Bool-cases (may_sponsor (find_writer g by))) [
    | inr bad ↦ absurd (let f = rw (new, bad) at h in cc)
    | inl good ↦ elim (Bool-cases (has by r.sponsors)) [
      | inl again ↦ subst IsAudited (ok-inj (rw (new, good, again) at h)) trail
      | inr first ↦ weigh-Keeps g by now _ s (rw (new, good, first) at h) trail
    ]
  ]
]

pub put-IsRegistry :
    (g : WriterRegistry) (k : Bytes) (r : WriterRecord)
    → IsRegistry g
    → IsAudited r
    → IsRegistry (put g k r)
unfolding find_writer put
put-IsRegistry g k r reg trail j s h = elim (Bool-cases (bytes_eq k j)) [
  | inl e ↦
      let f : some r ≡ some s = rw (lookup-insert k j r g.records, e) at h in
      let q : r ≡ s = cc in subst IsAudited q trail
  | inr ne ↦ reg j s (rw (lookup-insert k j r g.records, ne) at h)
]

pub get_or_raise-ok :
    (o : Option WriterRecord) (r : WriterRecord) → get_or_raise o ≡ ok r → o ≡ some r
get_or_raise-ok none r h = cc
get_or_raise-ok (some q) r h = ap some (ok-inj h)

pub update-IsRegistry :
    (g : WriterRegistry) (k : Bytes) (change : WriterRecord → Result WriterRecord)
    (p : WriterRegistry × WriterRecord)
    → update g k change ≡ ok p
    → Keeps change
    → IsRegistry g
    → IsRegistry p.0
unfolding update
update-IsRegistry g k change p h safe reg =
    let (s, both, stored) = bind-eq_ok (get_or_raise (find_writer g k) >>= change) _ h in
    let (r, there, done) = bind-eq_ok (get_or_raise (find_writer g k)) _ both in
    subst (λ q. IsRegistry q.0) (ok-inj stored)
      (put-IsRegistry g k s reg (safe r s done (reg k r (get_or_raise-ok _ r there))))
