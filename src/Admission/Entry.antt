-- ===== src/Admission/Entry.antt =====
-- Who is let in, and that an evicted node never is.
use suwappu_lattice_protocol.Prelude.{
  ◌+◌, ◌≤◌, ◌≡◌, refl, sym, ap, subst, ◌∙◌, Bool, true, false, inl, inr, Option, none, some, List,
  [], ◌∷◌, ltb-cases, Bytes, bytes_eq, bytes_eq→eq, Result, ok, raise, ok-inj, arith, Bool-cases,
}
use suwappu_lattice_protocol.Dict.{lookup, insert, lookup-insert, lookup-insert_self}
use suwappu_lattice_protocol.Ledger.{
  ℤ, pos, negsuc, Account, Ledger, new_account, or_else, account, open_if_absent, open_account,
  set_account, post_bond,
}
use suwappu_lattice_protocol.Payouts.Accounts.{account-set_self, account-set_other}
use suwappu_lattice_protocol.Ledger.Solvency.{Operation, after, bond_in, touch, bond}
use suwappu_lattice_protocol.Admission.{
  AdmissionDecision, accepted, member, Admission, is_member, is_admitted, under_bonded,
  post_positive, apply_detailed, mark_evicted, evict,
}
use suwappu_lattice_protocol.Admission.Eviction.{
  SameEvicted, after-SameEvicted, lookup-discard, evict-bond, release-evicted,
}

pub data Call : Type 0 where
  applies : Bytes → Bool → ℤ → Call
  evicts : Bytes → Bytes → Bool → Call
  ledger_call : Operation → Call

abbrev pub changed : Admission → Result (Admission × AdmissionDecision) → Admission
changed c (ok p) = p.0
changed c (raise e) = c

-- The service and its ledger after a call of the service, or of the ledger by another client.
unfoldable pub step : Admission → Call → Admission
step c (applies k verified amount) = changed c (apply_detailed c k verified amount)
step c (evicts k reason evidence) = (evict c k reason evidence).0
step c (ledger_call o) = record c { ledger = after c.ledger o }

abbrev pub steps : Admission → List Call → Admission
steps c [] = c
steps c (o ∷ os) = steps (step c o) os

-- Evicted, and not admitted.
abbrev pub IsOut : Admission → Bytes → Type 0
IsOut c k = ((account c.ledger k).evicted ≡ true) × (is_admitted c k ≡ false)

-- Posting a bond that may be negative or zero never fails.
post_positive-ok :
    (l : Ledger) (k : Bytes) (b : ℤ)
    → (l' : Ledger) × (post_positive l k b ≡ ok l')
      × SameEvicted l l'
      × (under_bonded b (bond (account l k)) l.config.min_bond_micro ≡ false
          → l.config.min_bond_micro ≤ bond (account l' k))
unfolding post_positive post_bond after under_bonded account set_account
post_positive-ok l k (negsuc n) = (l, refl, λ j. refl, λ h. ground arith)
post_positive-ok l k (pos b) = elim (ltb-cases 0 b) [
  | inl (lt, t) ↦
      let a = account l k in
      (
        after l (bond_in k (pos b)),
        rw t refl,
        after-SameEvicted l (bond_in k (pos b)),
        λ h.
            subst (λ x. l.config.min_bond_micro ≤ bond x)
              (sym (account-set_self l k (record a { bond_micro = a.bond_micro + b })))
              (ground arith),
      )
  | inr (le, t) ↦ (l, rw t refl, λ j. refl, λ h. ground arith)
]

opened-account :
    (l : Ledger) (k : Bytes) (o : Option Account)
    → lookup k l.accounts ≡ o
    → (account (open_if_absent l k o) k ≡ account l k) × ((open_if_absent l k o).config ≡ l.config)
unfolding account set_account
opened-account l k none e =
    (account-set_self l k new_account ∙ sym (ap (or_else new_account) e), refl)
opened-account l k (some a) e = (refl, refl)

-- A call of `apply_detailed` that admits: the node was not evicted and its proof verified, it is now
-- admitted, and its bond, with what it posted, is at least the minimum.
pub apply_detailed-accepted :
    (c c' : Admission) (k : Bytes) (verified : Bool) (b : ℤ)
    → apply_detailed c k verified b ≡ ok (c', accepted)
    → ((account c.ledger k).evicted ≡ false)
      × (verified ≡ true)
      × (is_admitted c' k ≡ true)
      × (c.ledger.config.min_bond_micro ≤ bond (account c'.ledger k))
unfolding apply_detailed open_account is_admitted
apply_detailed-accepted c c' k verified b h =
    let o = lookup k c.ledger.accounts in
    let l = open_if_absent c.ledger k o in
    let (same, conf) = opened-account c.ledger k o refl in
    let (u, posted, flags, enough) = post_positive-ok l k b in
    elim (Bool-cases (account c.ledger k).evicted) [
      | inl out ↦ absurd (let f = rw out at h in cc)
      | inr free ↦
          elim (Bool-cases (under_bonded b (bond (account c.ledger k)) l.config.min_bond_micro)) [
            | inl under ↦ absurd (let f = rw (free, under) at h in cc)
            | inr bonded ↦ elim (Bool-cases verified) [
              | inr bad ↦ absurd (let f = rw (free, bonded, bad) at h in cc)
              | inl good ↦
                  let made = rw (free, bonded, good, posted) at h in
                  let e : record { ledger = u; admitted = insert k member c.admitted } ≡ c' =
                    ap (λ p. p.0) (ok-inj made) in
                  (
                    free,
                    good,
                    subst (λ x. is_member (lookup k x.admitted) ≡ true) e
                        (ap is_member (lookup-insert_self k member c.admitted)),
                    subst (λ x. c.ledger.config.min_bond_micro ≤ bond (account x.ledger k)) e
                        (subst (λ x. x.min_bond_micro ≤ bond (account u k)) conf
                          (enough (rw same bonded))),
                  )
            ]
          ]
    ]

apply-IsOut :
    (c : Admission) (j k : Bytes) (verified : Bool) (b : ℤ)
    → IsOut c k
    → IsOut (changed c (apply_detailed c j verified b)) k
unfolding apply_detailed open_account is_admitted after
apply-IsOut c j k verified b out =
    let o = lookup j c.ledger.accounts in
    let l = open_if_absent c.ledger j o in
    let flags : SameEvicted c.ledger l = after-SameEvicted c.ledger (touch j) in
    let seen : IsOut (record c { ledger = l }) k = (flags k ∙ out.0, out.1) in
    elim (Bool-cases (account c.ledger j).evicted) [
      | inl gone ↦ rw gone seen
      | inr free ↦
          elim (Bool-cases (under_bonded b (bond (account c.ledger j)) l.config.min_bond_micro)) [
            | inl under ↦ rw (free, under) seen
            | inr bonded ↦ elim (Bool-cases verified) [
              | inr bad ↦ rw (free, bonded, bad) seen
              | inl good ↦
                  let (u, posted, same, enough) = post_positive-ok l j b in
                  rw (free, bonded, good, posted)
                    (
                      same k ∙ seen.0,
                      elim (Bool-cases (bytes_eq j k)) [
                        | inl here ↦ absurd (
                            let f : false ≡ true =
                              sym free
                              ∙ ap (λ i. (account c.ledger i).evicted) (bytes_eq→eq j k here)
                              ∙ out.0 in
                            cc)
                        | inr other ↦
                            ap is_member (lookup-insert j k member c.admitted ∙ rw other refl)
                            ∙ out.1
                      ],
                    )
            ]
          ]
    ]

evict-IsOut :
    (c : Admission) (j k reason : Bytes) (evidence : Bool)
    → IsOut c k
    → IsOut (evict c j reason evidence).0 k
unfolding evict mark_evicted is_admitted
evict-IsOut c j k reason evidence out = elim (Bool-cases (bytes_eq j k)) [
  | inl here ↦
      let (gone, off, bond_gone, sum, solvent, _, _, _, _, _) = evict-bond c j reason evidence in
      subst (IsOut (evict c j reason evidence).0) (bytes_eq→eq j k here) (gone, off)
  | inr other ↦ (
    release-evicted _ _ j k ∙ ap (λ a. a.evicted) (account-set_other c.ledger j k _ other) ∙ out.0,
    lookup-discard j k c.admitted ∙ rw other out.1,
  )
]

step-IsOut : (c : Admission) (o : Call) (k : Bytes) → IsOut c k → IsOut (step c o) k
unfolding step is_admitted
step-IsOut c (applies j verified b) k out = apply-IsOut c j k verified b out
step-IsOut c (evicts j reason evidence) k out = evict-IsOut c j k reason evidence out
step-IsOut c (ledger_call o) k out = (after-SameEvicted c.ledger o k ∙ out.0, out.1)

steps-IsOut : (c : Admission) (os : List Call) (k : Bytes) → IsOut c k → IsOut (steps c os) k
steps-IsOut c [] k out = out
steps-IsOut c (o ∷ os) k out = steps-IsOut (step c o) os k (step-IsOut c o k out)

-- After an eviction, whatever calls of the service and of the ledger follow, the node stays evicted
-- and is not admitted.
pub evict-steps :
    (c : Admission) (k reason : Bytes) (evidence : Bool) (os : List Call)
    → IsOut (steps (evict c k reason evidence).0 os) k
evict-steps c k reason evidence os =
    let (gone, off, bond_gone, sum, solvent, _, _, _, _, _) = evict-bond c k reason evidence in
    steps-IsOut (evict c k reason evidence).0 os k (gone, off)
