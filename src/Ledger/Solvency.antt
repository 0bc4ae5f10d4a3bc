-- ===== src/Ledger/Solvency.antt =====
-- The ledger's books as an invariant: the money held and the money withdrawn are the money
-- deposited. The calls that take money in; `Solvency/Runs` has the rest and runs of calls.
pub mod Runs
use suwappu_lattice_protocol.Prelude.{
  ℕ, ◌+◌, ◌-◌, ◌*◌, ◌/◌, ◌≤◌, ◌≡◌, refl, Bool, true, false, Option, none, some, inl, inr, List, [],
  ◌∷◌, ltb, ltb-cases, ◌==◌, Bytes, Result, ok, raise, arith, Option-cases,
}
use native.Mathlib.Nat.{mul-add}
use suwappu_lattice_protocol.Dict.{
  Dict, lookup, insert, remove, total, value_of, total-insert, total-remove,
}
use suwappu_lattice_protocol.Ledger.{
  ℤ, pos, negsuc, IncentiveConfig, check_config, Account, new_account, Ledger, init, or_else,
  account, open_account, set_account, split_fee, add_shares, deposit_fee, fund_incentive_budget,
  post_bond, customer_balance, customer_deposit, customer_debit_to_fees, customer_refund,
  pay_from_pool, slash_bond, refund_bond, forfeit_bond_to_insurance, total_held_micro,
  check_solvency, is_empty,
}

abbrev pub bond : Account → ℕ
bond a = a.bond_micro

abbrev pub balance : ℕ → ℕ
balance b = b

abbrev pub held : Ledger → ℕ
held l =
    l.operator_pool_micro
    + l.insurance_pool_micro
    + l.treasury_micro
    + total bond l.accounts
    + total balance l.customer_balances

-- Everything deposited and not withdrawn is held, and the fee shares sum to the whole.
pub record IsSolvent (l : Ledger) : Type 0 where
  pub shares :
      l.config.fee_operator_share_bps + l.config.fee_insurance_share_bps
        + l.config.fee_treasury_share_bps
      ≡ 10_000
  pub books : held l + l.total_withdrawn ≡ l.total_deposited

-- The calls of the ledger's methods that change it.
pub data Operation : Type 0 where
  fee fund : ℤ → Operation
  bond_in deposit debit pay slash : Bytes → ℤ → Operation
  touch refund bond_out forfeit : Bytes → Operation

abbrev pub kept {ℓ} : {A : Type ℓ} → Ledger → Result (Ledger × A) → Ledger
kept l (ok p) = p.0
kept l (raise e) = l

abbrev pub changed : Ledger → Result Ledger → Ledger
changed l (ok l') = l'
changed l (raise e) = l

-- The ledger after a call, whether it returned or raised.
unfoldable pub after : Ledger → Operation → Ledger
after l (fee a) = kept l (deposit_fee l a)
after l (fund a) = changed l (fund_incentive_budget l a)
after l (bond_in k a) = changed l (post_bond l k a)
after l (deposit k a) = kept l (customer_deposit l k a)
after l (debit k a) = kept l (customer_debit_to_fees l k a)
after l (pay k a) = kept l (pay_from_pool l k a)
after l (slash k a) = kept l (slash_bond l k a)
after l (touch k) = open_account l k
after l (refund k) = (customer_refund l k).0
after l (bond_out k) = (refund_bond l k).0
after l (forfeit k) = (forfeit_bond_to_insurance l k).0

abbrev pub run : Ledger → List Operation → Ledger
run l [] = l
run l (o ∷ os) = run (after l o) os

pub bond_of : (o : Option Account) → value_of bond o ≡ bond (or_else new_account o)
bond_of none = refl
bond_of (some a) = refl

balance_of : (o : Option ℕ) → value_of balance o ≡ or_else 0 o
balance_of none = refl
balance_of (some b) = refl

pub bonds-insert :
    (l : Ledger) (k : Bytes) (a : Account)
    → total bond (insert k a l.accounts) + bond (account l k) ≡ total bond l.accounts + bond a
unfolding account
bonds-insert l k a = omega (arith, total-insert bond k a l.accounts, bond_of (lookup k l.accounts))

pub balances-insert :
    (l : Ledger) (k : Bytes) (b : ℕ)
    → total balance (insert k b l.customer_balances) + customer_balance l k
      ≡ total balance l.customer_balances + b
unfolding customer_balance
balances-insert l k b =
    omega (
      arith,
      total-insert balance k b l.customer_balances,
      balance_of (lookup k l.customer_balances),
    )

pub balances-remove :
    (l : Ledger) (k : Bytes)
    → total balance (remove k l.customer_balances) + customer_balance l k
      ≡ total balance l.customer_balances
unfolding customer_balance
balances-remove l k =
    omega
      (arith, total-remove balance k l.customer_balances, balance_of (lookup k l.customer_balances))

scaled : (a b c : ℕ) → b ≤ c → a * b ≤ a * c
scaled a b c h = grind arith

-- The shares of a fee sum to the fee.
pub split_fee-sum :
    (c : IncentiveConfig) (amount : ℕ)
    → c.fee_operator_share_bps + c.fee_insurance_share_bps + c.fee_treasury_share_bps ≡ 10_000
    → (split_fee c amount).0 + (split_fee c amount).1 + (split_fee c amount).2 ≡ amount
unfolding split_fee
split_fee-sum c amount h = omega (
  arith,
  scaled amount (c.fee_insurance_share_bps + c.fee_treasury_share_bps) 10_000 (omega arith),
  mul-add amount c.fee_insurance_share_bps c.fee_treasury_share_bps,
)

pub after-fee : (l : Ledger) (a : ℤ) → IsSolvent l → IsSolvent (after l (fee a))
unfolding after deposit_fee add_shares
after-fee l (negsuc n) s = s
after-fee l (pos a) s = record {
  shares = s.shares;
  books = omega (arith, s.books, split_fee-sum l.config a s.shares);
}

pub after-fund : (l : Ledger) (a : ℤ) → IsSolvent l → IsSolvent (after l (fund a))
unfolding after fund_incentive_budget
after-fund l (negsuc n) s = s
after-fund l (pos a) s = record { shares = s.shares; books = omega (arith, s.books) }

pub after-bond_in :
    (l : Ledger) (k : Bytes) (a : ℤ) → IsSolvent l → IsSolvent (after l (bond_in k a))
unfolding after post_bond set_account
after-bond_in l k (negsuc n) s = s
after-bond_in l k (pos a) s = record {
  shares = s.shares;
  books = omega (
    arith,
    s.books,
    bonds-insert l k (record (account l k) { bond_micro = bond (account l k) + a }),
  );
}

pub after-deposit :
    (l : Ledger) (k : Bytes) (a : ℤ) → IsSolvent l → IsSolvent (after l (deposit k a))
unfolding after customer_deposit
after-deposit l k (negsuc n) s = s
after-deposit l [] (pos a) s = s
after-deposit l (c ∷ cs) (pos a) s = record {
  shares = s.shares;
  books = omega (arith, s.books, balances-insert l (c ∷ cs) (customer_balance l (c ∷ cs) + a));
}

pub after-debit : (l : Ledger) (k : Bytes) (a : ℤ) → IsSolvent l → IsSolvent (after l (debit k a))
unfolding after customer_debit_to_fees add_shares
after-debit l k (negsuc n) s = s
after-debit l k (pos a) s = elim (ltb-cases (customer_balance l k) a) [
  | inl (lt, t) ↦ rw t s
  | inr (le, t) ↦ rw t (record {
    shares = s.shares;
    books = omega (
      arith,
      s.books,
      split_fee-sum l.config a s.shares,
      balances-insert l k (customer_balance l k - a),
    );
  })
]
