-- ===== src/Admission.antt =====
-- `StableAdmissionControl` (src/ltp/incentives.py) over the ledger that it changes. The verifier of
-- storage proofs is a parameter of the class; here a call is given what it answers on the proof.
pub mod Eviction
pub mod Entry
use suwappu_lattice_protocol.Prelude.{
  ℕ, ◌+◌, ◌≤◌, Bool, true, false, Option, none, some, List, [], ◌∷◌, ltb, ◌&&◌, if◌then◌else◌,
  Bytes, bytes_eq, Result, ok, raise, ◌>>=◌,
}
use suwappu_lattice_protocol.Dict.{Dict, lookup, insert}
use suwappu_lattice_protocol.Ledger.{
  ℤ, pos, negsuc, Account, Ledger, account, open_account, set_account, post_bond, refund_bond,
  forfeit_bond_to_insurance,
}

pub data AdmissionDecision : Type 0 where
  accepted rejected_bond rejected_proof rejected_evicted : AdmissionDecision

pub record EvictionConfirmation : Type 0 where
  pub node_id : Bytes
  pub reason : Bytes
  pub bond_refunded_micro : ℕ
  pub bond_forfeited_micro : ℕ

-- `_admitted` is a set: a dict whose values say nothing.
pub data Member : Type 0 where
  member : Member

pub record Admission : Type 0 where
  pub ledger : Ledger
  pub admitted : Dict Member

-- `self._admitted.discard(node_id)`
unfoldable pub discard : Bytes → Dict Member → Dict Member
discard k [] = []
discard k ((j, m) ∷ d) = if bytes_eq j k then discard k d else (j, m) ∷ discard k d

abbrev pub make_admission : Ledger → Admission
make_admission ledger = record { ledger = ledger; admitted = [] }

abbrev pub is_member : Option Member → Bool
is_member none = false
is_member (some m) = true

unfoldable pub is_admitted : Admission → Bytes → Bool
is_admitted c node_id = is_member (lookup node_id c.admitted)

-- `bond + acct.bond_micro < self.config.min_bond_micro`, with a bond that may be negative
unfoldable pub under_bonded : ℤ → ℕ → ℕ → Bool
under_bonded (pos bond) held minimum = ltb (bond + held) minimum
under_bonded (negsuc n) held minimum = ltb held (minimum + n + 1)

-- `if bond > 0: post_bond`
unfoldable pub post_positive : Ledger → Bytes → ℤ → Result Ledger
post_positive l node_id (pos bond) = if ltb 0 bond then post_bond l node_id (pos bond) else ok l
post_positive l node_id (negsuc n) = ok l

abbrev pub admit : Admission → Bytes → Ledger → Result (Admission × AdmissionDecision)
admit c node_id l =
    ok (record c { ledger = l; admitted = insert node_id member c.admitted }, accepted)

unfoldable pub apply_detailed :
    Admission → Bytes → Bool → ℤ → Result (Admission × AdmissionDecision)
apply_detailed c node_identity verified bond =
    let a = account c.ledger node_identity in
    let l = open_account c.ledger node_identity in
    let seen = record c { ledger = l } in
    if a.evicted
    then ok (seen, rejected_evicted)
    else if under_bonded bond a.bond_micro l.config.min_bond_micro
    then ok (seen, rejected_bond)
    else if verified
    then (post_positive l node_identity bond >>= admit seen node_identity)
    else ok (seen, rejected_proof)

unfoldable pub is_accepted : AdmissionDecision → Bool
is_accepted accepted = true
is_accepted _ = false

abbrev pub decision : Admission × AdmissionDecision → Result (Admission × Bool)
unfolding is_accepted
decision (c, d) = ok (c, is_accepted d)

unfoldable pub apply : Admission → Bytes → Bool → ℤ → Result (Admission × Bool)
unfolding decision
apply c node_identity verified bond = apply_detailed c node_identity verified bond >>= decision

-- The code points of the four names in `FORFEITING_REASONS`
abbrev pub audit_failure : Bytes
audit_failure = 97 ∷ 117 ∷ 100 ∷ 105 ∷ 116 ∷ 95 ∷ 102 ∷ 97 ∷ 105 ∷ 108 ∷ 117 ∷ 114 ∷ 101 ∷ []

abbrev pub fraud : Bytes
fraud = 102 ∷ 114 ∷ 97 ∷ 117 ∷ 100 ∷ []

abbrev pub equivocation : Bytes
equivocation = 101 ∷ 113 ∷ 117 ∷ 105 ∷ 118 ∷ 111 ∷ 99 ∷ 97 ∷ 116 ∷ 105 ∷ 111 ∷ 110 ∷ []

abbrev pub withholding : Bytes
withholding = 119 ∷ 105 ∷ 116 ∷ 104 ∷ 104 ∷ 111 ∷ 108 ∷ 100 ∷ 105 ∷ 110 ∷ 103 ∷ []

unfoldable pub one_of : Bytes → List Bytes → Bool
one_of reason [] = false
one_of reason (r ∷ rs) = if bytes_eq r reason then true else one_of reason rs

unfoldable pub forfeits : Bytes → Bool
unfolding one_of
forfeits reason = one_of reason (audit_failure ∷ fraud ∷ equivocation ∷ withholding ∷ [])

unfoldable pub mark_evicted : Ledger → Bytes → Ledger
mark_evicted l node_id =
    let a = account l node_id in set_account l node_id (record a { evicted = true })

abbrev pub confirmed : Bytes → Bytes → Bool → ℕ → EvictionConfirmation
confirmed node_id reason true bond = record {
  node_id = node_id;
  reason = reason;
  bond_refunded_micro = 0;
  bond_forfeited_micro = bond;
}
confirmed node_id reason false bond = record {
  node_id = node_id;
  reason = reason;
  bond_refunded_micro = bond;
  bond_forfeited_micro = 0;
}

unfoldable pub release_bond : Bool → Ledger → Bytes → Ledger × ℕ
release_bond true l node_id = forfeit_bond_to_insurance l node_id
release_bond false l node_id = refund_bond l node_id

-- `evidence`: the audit evidence is not None
unfoldable pub evict : Admission → Bytes → Bytes → Bool → Admission × EvictionConfirmation
evict c node_id reason evidence =
    let l = mark_evicted c.ledger node_id in
    let forfeit = forfeits reason && evidence in
    let p = release_bond forfeit l node_id in
    (
      record { ledger = p.0; admitted = discard node_id c.admitted },
      confirmed node_id reason forfeit p.1,
    )
