-- ===== src/Admission/Eviction.antt =====
-- What an eviction does to the bond, and that it lasts.
use suwappu_lattice_protocol.Prelude.{
  ℕ, ◌+◌, ◌≡◌, refl, sym, ap, ◌∙◌, Bool, true, false, inl, inr, Option, none, some, [], ◌∷◌,
  ltb-cases, Bytes, bytes_eq, bytes_eq→eq, bytes_eq_refl, arith, Bool-cases, ◌&&◌, if◌then◌else◌,
}
use suwappu_lattice_protocol.Dict.{Dict, lookup}
use suwappu_lattice_protocol.Ledger.{
  pos, negsuc, Account, new_account, Ledger, account, open_if_absent, open_account, set_account,
  post_bond, pay_from_pool, slash_bond, refund_bond, forfeit_bond_to_insurance, or_else,
  deposit_fee, add_shares, fund_incentive_budget, customer_deposit, customer_debit_to_fees,
  customer_refund, is_empty, customer_balance,
}
use suwappu_lattice_protocol.Ledger.Solvency.{
  IsSolvent, Operation, after, fee, fund, bond_in, deposit, debit, pay, slash, touch, refund,
  bond_out, forfeit, bond,
}
use suwappu_lattice_protocol.Ledger.Solvency.Runs.{after-IsSolvent}
use suwappu_lattice_protocol.Payouts.Accounts.{account-set, account-set_self, account-set_other}
use suwappu_lattice_protocol.Payouts.Accrual.{same_bond-Meters}
use suwappu_lattice_protocol.Admission.{
  Member, Admission, discard, is_member, is_admitted, forfeits, mark_evicted, release_bond,
  confirmed, evict,
}

-- The two ledgers agree on who is evicted.
abbrev pub SameEvicted : Ledger → Ledger → Type 0
SameEvicted l l' = (j : Bytes) → (account l' j).evicted ≡ (account l j).evicted

pub set-SameEvicted :
    (l : Ledger) (k : Bytes) (a : Account)
    → a.evicted ≡ (account l k).evicted
    → SameEvicted l (set_account l k a)
set-SameEvicted l k a e j = elim (Bool-cases (bytes_eq k j)) [
  | inl here ↦
      let same : k ≡ j = bytes_eq→eq k j here in
      rw (account-set l k j a, here) (e ∙ ap (λ i. (account l i).evicted) same)
  | inr other ↦ rw (account-set l k j a, other) refl
]

opened-SameEvicted :
    (l : Ledger) (k : Bytes) (o : Option Account)
    → lookup k l.accounts ≡ o
    → SameEvicted l (open_if_absent l k o)
unfolding account set_account
opened-SameEvicted l k none e =
    set-SameEvicted l k new_account (sym (ap (λ o. (or_else new_account o).evicted) e))
opened-SameEvicted l k (some a) e = λ j. refl

-- No call of the ledger evicts a node or takes it back.
pub after-SameEvicted : (l : Ledger) (o : Operation) → SameEvicted l (after l o)
unfolding after deposit_fee fund_incentive_budget post_bond customer_deposit customer_debit_to_fees
    customer_refund pay_from_pool slash_bond refund_bond forfeit_bond_to_insurance open_account
    account set_account add_shares is_empty customer_balance
after-SameEvicted l (fee (pos a)) j = refl
after-SameEvicted l (fee (negsuc a)) j = refl
after-SameEvicted l (fund (pos a)) j = refl
after-SameEvicted l (fund (negsuc a)) j = refl
after-SameEvicted l (bond_in k (pos a)) j = set-SameEvicted l k _ refl j
after-SameEvicted l (bond_in k (negsuc a)) j = refl
after-SameEvicted l (deposit [] (pos a)) j = refl
after-SameEvicted l (deposit (c ∷ cs) (pos a)) j = refl
after-SameEvicted l (deposit k (negsuc a)) j = refl
after-SameEvicted l (debit k (pos a)) j = elim (ltb-cases (customer_balance l k) a) [
  | inl (lt, t) ↦ rw t refl
  | inr (le, t) ↦ rw t refl
]
after-SameEvicted l (debit k (negsuc a)) j = refl
after-SameEvicted l (pay k (pos a)) j = set-SameEvicted l k _ refl j
after-SameEvicted l (pay k (negsuc a)) j = refl
after-SameEvicted l (slash k (pos a)) j = set-SameEvicted l k _ refl j
after-SameEvicted l (slash k (negsuc a)) j = refl
after-SameEvicted l (touch k) j = opened-SameEvicted l k (lookup k l.accounts) refl j
after-SameEvicted l (refund k) j = refl
after-SameEvicted l (bond_out k) j = set-SameEvicted l k _ refl j
after-SameEvicted l (forfeit k) j = set-SameEvicted l k _ refl j

pub lookup-discard :
    (k j : Bytes) (d : Dict Member)
    → is_member (lookup j (discard k d)) ≡ (if bytes_eq k j then false else is_member (lookup j d))
unfolding lookup discard
lookup-discard k j [] = ground arith
lookup-discard k j ((i, m) ∷ d) = ground (arith, lookup-discard k j d)

pub release-evicted :
    (forfeit : Bool) (l : Ledger) (k : Bytes) → SameEvicted l (release_bond forfeit l k).0
unfolding release_bond after
release-evicted true l k = after-SameEvicted l (forfeit k)
release-evicted false l k = after-SameEvicted l (bond_out k)

release-bond :
    (forfeit : Bool) (l : Ledger) (k : Bytes)
    → (bond (account (release_bond forfeit l k).0 k) ≡ 0)
      × ((release_bond forfeit l k).1 ≡ bond (account l k))
      × (IsSolvent l → IsSolvent (release_bond forfeit l k).0)
      × ((release_bond forfeit l k).0.total_withdrawn
          ≡ l.total_withdrawn + (if forfeit then 0 else bond (account l k)))
      × ((release_bond forfeit l k).0.insurance_pool_micro
          ≡ l.insurance_pool_micro + (if forfeit then bond (account l k) else 0))
      × ((j : Bytes) → bytes_eq k j ≡ false → account (release_bond forfeit l k).0 j ≡ account l j)
unfolding release_bond forfeit_bond_to_insurance refund_bond after account set_account
release-bond true l k = (
  ap bond (account-set_self l k _),
  refl,
  after-IsSolvent l (forfeit k),
  omega arith,
  refl,
  λ j ne. account-set_other l k j _ ne,
)
release-bond false l k = (
  ap bond (account-set_self l k _),
  refl,
  after-IsSolvent l (bond_out k),
  refl,
  omega arith,
  λ j ne. account-set_other l k j _ ne,
)

confirmed-sum :
    (k reason : Bytes) (f : Bool) (b : ℕ)
    → (confirmed k reason f b).bond_refunded_micro + (confirmed k reason f b).bond_forfeited_micro
      ≡ b
confirmed-sum k reason true b = omega arith
confirmed-sum k reason false b = omega arith

confirmed-parts :
    (k reason : Bytes) (f : Bool) (b : ℕ)
    → ((confirmed k reason f b).bond_refunded_micro ≡ (if f then 0 else b))
      × ((confirmed k reason f b).bond_forfeited_micro ≡ (if f then b else 0))
confirmed-parts k reason true b = (refl, refl)
confirmed-parts k reason false b = (refl, refl)

-- `evict` leaves the node evicted, not admitted and without a bond. For a forfeiting reason with
-- evidence it says that the whole bond was forfeited, which goes into the insurance pool, and
-- otherwise that the whole bond was refunded, which is withdrawn; the two numbers sum to the bond
-- before. No other account changes, and a solvent ledger stays solvent.
pub evict-bond :
    (c : Admission) (k reason : Bytes) (evidence : Bool)
    → ((account (evict c k reason evidence).0.ledger k).evicted ≡ true)
      × (is_admitted (evict c k reason evidence).0 k ≡ false)
      × (bond (account (evict c k reason evidence).0.ledger k) ≡ 0)
      × ((evict c k reason evidence).1.bond_refunded_micro
            + (evict c k reason evidence).1.bond_forfeited_micro
          ≡ bond (account c.ledger k))
      × (IsSolvent c.ledger → IsSolvent (evict c k reason evidence).0.ledger)
      × ((evict c k reason evidence).1.bond_refunded_micro
          ≡ (if forfeits reason && evidence then 0 else bond (account c.ledger k)))
      × ((evict c k reason evidence).1.bond_forfeited_micro
          ≡ (if forfeits reason && evidence then bond (account c.ledger k) else 0))
      × ((evict c k reason evidence).0.ledger.total_withdrawn
          ≡ c.ledger.total_withdrawn
            + (if forfeits reason && evidence then 0 else bond (account c.ledger k)))
      × ((evict c k reason evidence).0.ledger.insurance_pool_micro
          ≡ c.ledger.insurance_pool_micro
            + (if forfeits reason && evidence then bond (account c.ledger k) else 0))
      × ((j : Bytes)
          → bytes_eq k j ≡ false
          → account (evict c k reason evidence).0.ledger j ≡ account c.ledger j)
unfolding evict mark_evicted is_admitted set_account
evict-bond c k reason evidence =
    let f = forfeits reason && evidence in
    let marked : Account = record (account c.ledger k) { evicted = true } in
    let l = set_account c.ledger k marked in
    let here = account-set_self c.ledger k marked in
    let (clear, all, solvent, withdrawn, insured, others) = release-bond f l k in
    let held : bond (account l k) ≡ bond (account c.ledger k) = ap bond here in
    let before : (release_bond f l k).1 ≡ bond (account c.ledger k) = all ∙ held in
    let (refunded, forfeited) = confirmed-parts k reason f (release_bond f l k).1 in
    (
      release-evicted f l k k ∙ ap (λ a. a.evicted) here,
      lookup-discard k k c.admitted ∙ rw (bytes_eq_refl k) refl,
      clear,
      confirmed-sum k reason f (release_bond f l k).1 ∙ before,
      λ s. solvent ((same_bond-Meters c.ledger k marked refl).solvent s),
      refunded ∙ ap (λ b. if f then 0 else b) before,
      forfeited ∙ ap (λ b. if f then b else 0) before,
      withdrawn ∙ ap (λ b. c.ledger.total_withdrawn + (if f then 0 else b)) held,
      insured ∙ ap (λ b. c.ledger.insurance_pool_micro + (if f then b else 0)) held,
      λ j ne. others j ne ∙ account-set_other c.ledger k j marked ne,
    )
