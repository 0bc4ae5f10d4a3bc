-- ===== src/AnchorStatus/Progress.antt =====
-- The path of an anchor, and what starts it again.
use suwappu_lattice_protocol.Prelude.{
  Bool, false, ◌≢◌, ==-cases, ℕ, ◌+◌, ◌≡◌, refl, subst, true, Option, none, some, inl, inr, [], ◌∷◌,
  length, if◌then◌else◌, Bytes, bytes_eq, bytes_eq→eq, Result, ok, raise, ◌>>=◌, arith, Bool-cases,
}
use suwappu_lattice_protocol.Dict.{lookup, insert, lookup-insert}
use suwappu_lattice_protocol.AnchorStatus.{
  AnchorStatus, pending, submitted, confirmed, finalized, failed, AnchorRecord, valid_transition,
  Tracker, get, found, transition, move, mark_pending, mark_submitted, mark_confirmed,
  mark_finalized, mark_failed, increment_retry, same_status, get_by_status, stats,
}

pub data Call : Type 0 where
  pend : ℕ → Bytes → Bytes → ℕ → Call
  submit fail_with : Bytes → Bytes → Call
  confirm : ℕ → Bytes → ℕ → ℕ → Call
  finalize retry : Bytes → Call

abbrev pub changed : Tracker → Result Tracker → Tracker
changed t (ok t') = t'
changed t (raise e) = t

abbrev pub retried : Tracker → Result (Tracker × ℕ) → Tracker
retried t (ok p) = p.0
retried t (raise e) = t

-- The tracker after a call, whether it returned or raised.
unfoldable pub after : Tracker → Call → Tracker
after t (pend now k digest chain) = changed t (mark_pending t now k digest chain)
after t (submit k tx) = changed t (mark_submitted t k tx)
after t (fail_with k why) = changed t (mark_failed t k why)
after t (confirm now k block gas) = changed t (mark_confirmed t now k block gas)
after t (finalize k) = changed t (mark_finalized t k)
after t (retry k) = retried t (increment_retry t k)

abbrev pub status_of : Option AnchorRecord → Option AnchorStatus
status_of none = none
status_of (some r) = some r.status

-- The entity that a call is about.
abbrev pub entity_of : Call → Bytes
entity_of (pend now k digest chain) = k
entity_of (submit k tx) = k
entity_of (fail_with k why) = k
entity_of (confirm now k block gas) = k
entity_of (finalize k) = k
entity_of (retry k) = k

-- The status that a call transitions to, where it does.
abbrev pub aims_at : Call → Option AnchorStatus
aims_at (submit k tx) = some submitted
aims_at (fail_with k why) = some failed
aims_at (confirm now k block gas) = some confirmed
aims_at (finalize k) = some finalized
aims_at (pend now k digest chain) = none
aims_at (retry k) = none

abbrev pub may_go : Option AnchorStatus → AnchorStatus → Bool
may_go none t = false
may_go (some s) t = valid_transition s t

-- What a call makes of the status of an entity. It starts again at pending by `mark_pending` of that
-- entity with a digest of 32 bytes, and by nothing else; it goes along a valid transition by the
-- call that aims there; it stays under a call about another entity, under a transition that is not
-- valid, under a digest of another length, and under a retry.
pub data Advances : Call → Bytes → Option AnchorStatus → Option AnchorStatus → Type 0 where
  starts :
      {now chain : ℕ} {k digest : Bytes} {s : Option AnchorStatus}
      → length digest ≡ 32
      → Advances (pend now k digest chain) k s (some pending)
  goes :
      {c : Call} {s t : AnchorStatus}
      → aims_at c ≡ some t
      → valid_transition s t ≡ true
      → Advances c (entity_of c) (some s) (some t)
  is_other :
      {c : Call} {k : Bytes} {s : Option AnchorStatus}
      → bytes_eq (entity_of c) k ≡ false
      → Advances c k s s
  is_refused :
      {c : Call} {s : Option AnchorStatus} {t : AnchorStatus}
      → aims_at c ≡ some t
      → may_go s t ≡ false
      → Advances c (entity_of c) s s
  is_unfit :
      {now chain : ℕ} {k digest : Bytes} {s : Option AnchorStatus}
      → length digest ≢ 32
      → Advances (pend now k digest chain) k s s
  is_retry : {k : Bytes} {s : Option AnchorStatus} → Advances (retry k) k s s

Advances-insert :
    (c : Call) (t : Tracker) (j : Bytes) (r : AnchorRecord)
    → Advances c (entity_of c) (status_of (get t (entity_of c))) (some r.status)
    → Advances c j (status_of (get t j)) (status_of (get (insert (entity_of c) r t) j))
unfolding get
Advances-insert c t j r h = elim (Bool-cases (bytes_eq (entity_of c) j)) [
  | inl e ↦
      rw (lookup-insert (entity_of c) j r t, e)
        (subst (λ i. Advances c i (status_of (lookup i t)) (some r.status))
          (bytes_eq→eq (entity_of c) j e) h)
  | inr ne ↦ rw (lookup-insert (entity_of c) j r t, ne) (is_other ne)
]

-- A call that leaves the tracker as it is.
Advances-same :
    (c : Call) (t : Tracker) (j : Bytes)
    → Advances c (entity_of c) (status_of (get t (entity_of c))) (status_of (get t (entity_of c)))
    → Advances c j (status_of (get t j)) (status_of (get t j))
Advances-same c t j h = elim (Bool-cases (bytes_eq (entity_of c) j)) [
  | inl e ↦
      subst (λ i. Advances c i (status_of (get t i)) (status_of (get t i)))
        (bytes_eq→eq (entity_of c) j e) h
  | inr ne ↦ is_other ne
]

abbrev Keeps : (AnchorRecord → AnchorRecord) → Type 0
Keeps set = (r : AnchorRecord) → (set r).status ≡ r.status

Advances-found :
    (c : Call) (t : Tracker) (j : Bytes) (to : AnchorStatus) (set : AnchorRecord → AnchorRecord)
    (o : Option AnchorRecord)
    → aims_at c ≡ some to
    → get t (entity_of c) ≡ o
    → Keeps set
    → Advances c j (status_of (get t j)) (
        status_of (
          get
            (changed t (found o >>= transition to >>= (λ r. ok (insert (entity_of c) (set r) t))))
            j))
unfolding transition
Advances-found c t j to set none aim e keep = Advances-same c t j (is_refused aim (rw e refl))
Advances-found c t j to set (some r) aim e keep = elim (Bool-cases (valid_transition r.status to)) [
  | inl legal ↦ rw legal (
      Advances-insert c t j (set (record r { status = to }))
        (rw (e, keep (record r { status = to })) (goes aim legal)))
  | inr illegal ↦ rw illegal (Advances-same c t j (is_refused aim (rw e illegal)))
]

Advances-move :
    (c : Call) (t : Tracker) (j : Bytes) (to : AnchorStatus) (set : AnchorRecord → AnchorRecord)
    → aims_at c ≡ some to
    → Keeps set
    → Advances c j
        (status_of (get t j))
        (status_of (get (changed t (move t (entity_of c) to set)) j))
unfolding move
Advances-move c t j to set aim keep =
    Advances-found c t j to set (get t (entity_of c)) aim refl keep

Advances-retry :
    (t : Tracker) (k j : Bytes) (o : Option AnchorRecord)
    → get t k ≡ o
    → Advances (retry k) j (status_of (get t j)) (
        status_of (
          get
            (retried t (
              found o >>= (λ r.
                ok (insert k (record r { retry_count = r.retry_count + 1 }) t, r.retry_count + 1))))
            j))
Advances-retry t k j none e = Advances-same (retry k) t j is_retry
Advances-retry t k j (some r) e = Advances-insert (retry k) t j _ (rw e is_retry)

-- Every call, whether it returns or raises, makes of the status of every entity what `Advances`
-- says: only `mark_pending` of the entity with a digest of 32 bytes starts it again, from any
-- status; a call that aims at a status takes its entity there along a valid transition; and the
-- status stays under all other calls.
pub after-Advances :
    (t : Tracker) (c : Call) (j : Bytes)
    → Advances c j (status_of (get t j)) (status_of (get (after t c) j))
unfolding after mark_pending mark_submitted mark_confirmed mark_finalized mark_failed
    increment_retry
after-Advances t (pend now k digest chain) j = elim (==-cases (length digest) 32) [
  | inl (e, fits) ↦ rw fits (Advances-insert (pend now k digest chain) t j _ (starts e))
  | inr (ne, wrong) ↦ rw wrong (Advances-same (pend now k digest chain) t j (is_unfit ne))
]
after-Advances t (submit k tx) j = Advances-move (submit k tx) t j submitted _ refl (λ r. refl)
after-Advances t (fail_with k why) j = Advances-move (fail_with k why) t j failed _ refl (λ r. refl)
after-Advances t (confirm now k block gas) j =
    Advances-move (confirm now k block gas) t j confirmed _ refl (λ r. refl)
after-Advances t (finalize k) j = Advances-move (finalize k) t j finalized _ refl (λ r. refl)
after-Advances t (retry k) j = Advances-retry t k j (get t k) refl

-- One more record of a status.
stats-add :
    (s : AnchorStatus) (k : Bytes) (r : AnchorRecord) (t : Tracker)
    → stats ((k, r) ∷ t) s ≡ (if same_status r.status s then 1 else 0) + stats t s
unfolding stats get_by_status
stats-add s k r t = ground arith

one_status :
    (s : AnchorStatus)
    → (if same_status s pending then 1 else 0)
        + (if same_status s submitted then 1 else 0)
        + (if same_status s confirmed then 1 else 0)
        + (if same_status s finalized then 1 else 0)
        + (if same_status s failed then 1 else 0)
      ≡ 1
unfolding same_status
one_status pending = refl
one_status submitted = refl
one_status confirmed = refl
one_status finalized = refl
one_status failed = refl

-- The counts that `stats` returns sum to the number of records.
stats-sum :
    (t : Tracker)
    → stats t pending + stats t submitted + stats t confirmed + stats t finalized + stats t failed
      ≡ length t
unfolding stats get_by_status
stats-sum [] = refl
stats-sum ((k, r) ∷ t) = omega (
  arith,
  stats-sum t,
  one_status r.status,
  stats-add pending k r t,
  stats-add submitted k r t,
  stats-add confirmed k r t,
  stats-add finalized k r t,
  stats-add failed k r t,
)
