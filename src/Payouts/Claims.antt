-- ===== src/Payouts/Claims.antt =====
-- What the accrual of a report and a slash do to the claims of the accounts.
use suwappu_lattice_protocol.Prelude.{
  ℕ, ◌+◌, ◌*◌, ◌/◌, ◌≤◌, ◌≡◌, refl, sym, ap, ◌∙◌, false, inl, inr, Option, none, some, ◌==◌, ◌||◌,
  Bytes, bytes_eq, bytes_eq→eq, ok, ok-inj, arith, Bool-cases, ==-cases,
}
use suwappu_lattice_protocol.Dict.{lookup}
use suwappu_lattice_protocol.Ledger.{
  pos, Account, new_account, or_else, Ledger, account, open_if_absent, open_account, set_account,
  slash_bond,
}
use suwappu_lattice_protocol.Payouts.Accounts.{account-set, account-set_self, account-set_other}
use suwappu_lattice_protocol.Payouts.{
  MeteredWorkReport, metered, add_claim, add_offenses, slash, accrue, claim,
}

-- The two ledgers agree on what every node is owed.
abbrev pub SameClaims : Ledger → Ledger → Type 0
SameClaims l l' = (j : Bytes) → claim (account l' j) ≡ claim (account l j)

set-SameClaims :
    (l : Ledger) (k : Bytes) (a : Account)
    → claim a ≡ claim (account l k)
    → SameClaims l (set_account l k a)
set-SameClaims l k a e j = elim (Bool-cases (bytes_eq k j)) [
  | inl here ↦
      let same : k ≡ j = bytes_eq→eq k j here in
      rw (account-set l k j a, here) (e ∙ ap (λ i. claim (account l i)) same)
  | inr other ↦ rw (account-set l k j a, other) refl
]

opened-SameClaims :
    (l : Ledger) (k : Bytes) (o : Option Account)
    → lookup k l.accounts ≡ o
    → SameClaims l (open_if_absent l k o)
unfolding account set_account
opened-SameClaims l k none e =
    set-SameClaims l k new_account (sym (ap (λ o. claim (or_else new_account o)) e))
opened-SameClaims l k (some a) e = λ j. refl

slash_bond-SameClaims :
    (l l' : Ledger) (k : Bytes) (n p : ℕ) → slash_bond l k (pos n) ≡ ok (l', p) → SameClaims l l'
unfolding slash_bond account
slash_bond-SameClaims l l' k n p e j =
    sym (ap (λ r. claim (account r.0 j)) (ok-inj e)) ∙ set-SameClaims l k _ refl j

pub slash-SameClaims :
    (l l' : Ledger) (k : Bytes) (count p : ℕ) → slash l k count ≡ ok (l', p) → SameClaims l l'
unfolding slash add_offenses
slash-SameClaims l l' k count p e j = elim (==-cases count 0) [
  | inl (z, b) ↦ let f = ok-inj (rw b at e) in ap (λ r. claim (account r.0 j)) (sym f)
  | inr (nz, b) ↦
      slash_bond-SameClaims (add_offenses l k count) l' k _ p (rw b at e) j
      ∙ set-SameClaims l k _ refl j
]

-- What a report adds to the claim of its node, and to no other.
pub accrue-claims :
    (l : Ledger) (r : MeteredWorkReport)
    → (claim (account (accrue l r).0 r.node_id) ≡ claim (account l r.node_id) + (accrue l r).1)
      × ((j : Bytes)
          → bytes_eq r.node_id j ≡ false
          → claim (account (accrue l r).0 j) ≡ claim (account l j))
      × ((account l r.node_id).evicted ≡ false
          → 1 ≤ r.audits_total
          → (accrue l r).1
            ≡ metered l r.bytes_stored r.seconds_stored r.bytes_served
              * r.audits_passed
              / r.audits_total)
unfolding accrue add_claim open_account
accrue-claims l r = elim (Bool-cases ((account l r.node_id).evicted || (r.audits_total == 0))) [
  | inl no_pay ↦
      let same = opened-SameClaims l r.node_id (lookup r.node_id l.accounts) refl in
      rw no_pay (
        omega (arith, same r.node_id),
        λ j ne. same j,
        λ e pos_total. absurd (ground (arith, e, pos_total, no_pay)),
      )
  | inr pay ↦ rw pay (
    ap claim (account-set_self l r.node_id _),
    λ j ne. ap claim (account-set_other l r.node_id j _ ne),
    λ e pos_total. refl,
  )
]

opened-insurance :
    (l : Ledger) (k : Bytes) (o : Option Account)
    → (open_if_absent l k o).insurance_pool_micro ≡ l.insurance_pool_micro
opened-insurance l k none = refl
opened-insurance l k (some a) = refl

pub accrue-insurance :
    (l : Ledger) (r : MeteredWorkReport)
    → (accrue l r).0.insurance_pool_micro ≡ l.insurance_pool_micro
unfolding accrue add_claim open_account set_account
accrue-insurance l r = elim (Bool-cases ((account l r.node_id).evicted || (r.audits_total == 0))) [
  | inl no_pay ↦ rw no_pay (opened-insurance l r.node_id (lookup r.node_id l.accounts))
  | inr pay ↦ rw pay refl
]
