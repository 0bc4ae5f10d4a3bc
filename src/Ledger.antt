-- ===== src/Ledger.antt =====
-- `StablecoinLedger` and `IncentiveConfig` (src/ltp/incentives.py). Amounts passed in are Python
-- integers, which may be negative; balances never are. The lock makes a method one step. A method
-- that raises LedgerError leaves the ledger alone. Prices and shares of a fee are natural numbers: the
-- code also takes negative ones, which are left out.
pub mod Solvency
use suwappu_lattice_protocol.Prelude.{
  ℕ, ◌+◌, ◌-◌, ◌*◌, ◌/◌, Bool, Option, none, some, List, [], ltb, ◌==◌, if◌then◌else◌, Bytes,
  Result, ok, raise, ledger_error, value_error,
}
use Prim.Native.Nat.{min, suc}
use suwappu_lattice_protocol.Dict.{Dict, lookup, insert, remove, total}

-- A Python integer: `negsuc n` is -(n + 1).
pub data ℤ : Type 0 where
  pos : ℕ → ℤ
  negsuc : ℕ → ℤ

pub record IncentiveConfig : Type 0 where
  pub price_per_gib_month_micro : ℕ
  pub price_per_gib_served_micro : ℕ
  pub base_commit_fee_micro : ℕ
  pub fee_operator_share_bps : ℕ
  pub fee_insurance_share_bps : ℕ
  pub fee_treasury_share_bps : ℕ
  pub min_bond_micro : ℕ
  pub slash_failure_threshold : ℕ

unfoldable pub with_min_bond : IncentiveConfig → ℤ → Result IncentiveConfig
with_min_bond c (negsuc n) = raise value_error
with_min_bond c (pos n) = ok (record c { min_bond_micro = n })

-- `__post_init__`, where the least bond is still the integer that was passed.
unfoldable pub check_config : IncentiveConfig → ℤ → Result IncentiveConfig
check_config c min_bond =
    if (c.fee_operator_share_bps + c.fee_insurance_share_bps + c.fee_treasury_share_bps) == 10_000
    then with_min_bond c min_bond
    else raise value_error

abbrev pub gib : ℕ
gib = 1_073_741_824

abbrev pub seconds_per_month : ℕ
seconds_per_month = 2_592_000

unfoldable pub storage_rate_micro : IncentiveConfig → ℕ → ℕ
storage_rate_micro c byte_seconds =
    byte_seconds * c.price_per_gib_month_micro / (gib * seconds_per_month)

unfoldable pub serving_rate_micro : IncentiveConfig → ℕ → ℕ
serving_rate_micro c bytes_served = bytes_served * c.price_per_gib_served_micro / gib

pub record Account : Type 0 where
  pub bond_micro : ℕ
  pub earned_claim_micro : ℕ
  pub paid_total_micro : ℕ
  pub slashed_total_micro : ℕ
  pub audit_offense_count : ℕ
  pub evicted : Bool

abbrev pub new_account : Account
new_account = record {
  bond_micro = 0;
  earned_claim_micro = 0;
  paid_total_micro = 0;
  slashed_total_micro = 0;
  audit_offense_count = 0;
  evicted = Bool.false;
}

pub record Ledger : Type 0 where
  pub config : IncentiveConfig
  pub operator_pool_micro : ℕ
  pub insurance_pool_micro : ℕ
  pub treasury_micro : ℕ
  pub accounts : Dict Account
  pub customer_balances : Dict ℕ
  pub total_deposited : ℕ
  pub total_withdrawn : ℕ

abbrev pub init : IncentiveConfig → Ledger
init config = record {
  config = config;
  operator_pool_micro = 0;
  insurance_pool_micro = 0;
  treasury_micro = 0;
  accounts = [];
  customer_balances = [];
  total_deposited = 0;
  total_withdrawn = 0;
}

abbrev pub or_else {ℓ} : {A : Type ℓ} → A → Option A → A
or_else a none = a
or_else a (some b) = b

-- `account`: the account of a node, made on first use
unfoldable pub account : Ledger → Bytes → Account
account l node_id = or_else new_account (lookup node_id l.accounts)

abbrev pub open_if_absent : Ledger → Bytes → Option Account → Ledger
open_if_absent l node_id none = record l { accounts = insert node_id new_account l.accounts }
open_if_absent l node_id (some a) = l

-- What that call leaves behind.
unfoldable pub open_account : Ledger → Bytes → Ledger
open_account l node_id = open_if_absent l node_id (lookup node_id l.accounts)

-- A change of the account object that `account` returned.
unfoldable pub set_account : Ledger → Bytes → Account → Ledger
set_account l node_id a = record l { accounts = insert node_id a l.accounts }

-- The split of a fee: operator, insurance and treasury shares.
unfoldable pub split_fee : IncentiveConfig → ℕ → ℕ × ℕ × ℕ
split_fee cfg amount =
    let insurance = amount * cfg.fee_insurance_share_bps / 10_000 in
    let treasury = amount * cfg.fee_treasury_share_bps / 10_000 in
    (amount - insurance - treasury, insurance, treasury)

unfoldable pub add_shares : Ledger → ℕ × ℕ × ℕ → Ledger
add_shares l (operator, insurance, treasury) = record l {
  operator_pool_micro = l.operator_pool_micro + operator;
  insurance_pool_micro = l.insurance_pool_micro + insurance;
  treasury_micro = l.treasury_micro + treasury;
}

unfoldable pub deposit_fee : Ledger → ℤ → Result (Ledger × (ℕ × ℕ × ℕ))
deposit_fee l (negsuc n) = raise ledger_error
deposit_fee l (pos amount) =
    let shares = split_fee l.config amount in
    let l' = add_shares l shares in
    ok (record l' { total_deposited = l'.total_deposited + amount }, shares)

unfoldable pub fund_incentive_budget : Ledger → ℤ → Result Ledger
fund_incentive_budget l (negsuc n) = raise ledger_error
fund_incentive_budget l (pos amount) = ok (record l {
  operator_pool_micro = l.operator_pool_micro + amount;
  total_deposited = l.total_deposited + amount;
})

unfoldable pub post_bond : Ledger → Bytes → ℤ → Result Ledger
post_bond l node_id (negsuc n) = raise ledger_error
post_bond l node_id (pos amount) =
    let a = account l node_id in
    let l' = set_account l node_id (record a { bond_micro = a.bond_micro + amount }) in
    ok (record l' { total_deposited = l'.total_deposited + amount })

unfoldable pub customer_balance : Ledger → Bytes → ℕ
customer_balance l customer_id = or_else 0 (lookup customer_id l.customer_balances)

unfoldable pub is_empty : Bytes → Bool
is_empty [] = Bool.true
is_empty _ = Bool.false

unfoldable pub customer_deposit : Ledger → Bytes → ℤ → Result (Ledger × ℕ)
unfolding is_empty
customer_deposit l customer_id (negsuc n) = raise ledger_error
customer_deposit l customer_id (pos amount) =
    let balance = customer_balance l customer_id + amount in
    if is_empty customer_id
    then raise ledger_error
    else ok (
      record l {
        customer_balances = insert customer_id balance l.customer_balances;
        total_deposited = l.total_deposited + amount;
      },
      balance,
    )

unfoldable pub customer_debit_to_fees : Ledger → Bytes → ℤ → Result (Ledger × (ℕ × ℕ × ℕ))
customer_debit_to_fees l customer_id (negsuc n) = raise ledger_error
customer_debit_to_fees l customer_id (pos amount) =
    let balance = customer_balance l customer_id in
    let shares = split_fee l.config amount in
    if ltb balance amount
    then raise ledger_error
    else ok (
      add_shares
          (record l {
            customer_balances = insert customer_id (balance - amount) l.customer_balances;
          })
          shares,
      shares,
    )

unfoldable pub customer_refund : Ledger → Bytes → Ledger × ℕ
customer_refund l customer_id =
    let refund = customer_balance l customer_id in
    (
      record l {
        customer_balances = remove customer_id l.customer_balances;
        total_withdrawn = l.total_withdrawn + refund;
      },
      refund,
    )

unfoldable pub pay_from_pool : Ledger → Bytes → ℤ → Result (Ledger × ℕ)
pay_from_pool l node_id (negsuc n) = raise ledger_error
pay_from_pool l node_id (pos amount) =
    let paid = min amount l.operator_pool_micro in
    let a = account l node_id in
    let l' = set_account l node_id (record a { paid_total_micro = a.paid_total_micro + paid }) in
    ok (
      record l' {
        operator_pool_micro = l.operator_pool_micro - paid;
        total_withdrawn = l.total_withdrawn + paid;
      },
      paid,
    )

unfoldable pub slash_bond : Ledger → Bytes → ℤ → Result (Ledger × ℕ)
slash_bond l node_id (negsuc n) = raise ledger_error
slash_bond l node_id (pos amount) =
    let a = account l node_id in
    let slashed = min amount a.bond_micro in
    let l' = set_account l node_id (record a {
      bond_micro = a.bond_micro - slashed;
      slashed_total_micro = a.slashed_total_micro + slashed;
    }) in
    ok (record l' { insurance_pool_micro = l.insurance_pool_micro + slashed }, slashed)

unfoldable pub refund_bond : Ledger → Bytes → Ledger × ℕ
refund_bond l node_id =
    let a = account l node_id in
    let l' = set_account l node_id (record a { bond_micro = 0 }) in
    (record l' { total_withdrawn = l.total_withdrawn + a.bond_micro }, a.bond_micro)

unfoldable pub forfeit_bond_to_insurance : Ledger → Bytes → Ledger × ℕ
forfeit_bond_to_insurance l node_id =
    let a = account l node_id in
    let l' =
      set_account l node_id
        (record a { bond_micro = 0; slashed_total_micro = a.slashed_total_micro + a.bond_micro }) in
    (record l' { insurance_pool_micro = l.insurance_pool_micro + a.bond_micro }, a.bond_micro)

unfoldable pub total_held_micro : Ledger → ℕ
total_held_micro l =
    l.operator_pool_micro
    + l.insurance_pool_micro
    + l.treasury_micro
    + total (λ a. a.bond_micro) l.accounts
    + total (λ b. b) l.customer_balances

-- held == deposited - withdrawn, with no truncated subtraction
unfoldable pub check_solvency : Ledger → Bool
unfolding total_held_micro
check_solvency l = (total_held_micro l + l.total_withdrawn) == l.total_deposited
