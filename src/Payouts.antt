-- ===== src/Payouts.antt =====
-- Proof-gated pay of nodes: `MeteredWorkReport`, `EpochPayoutSnapshot` and `StableNodeIncentive`
-- (src/ltp/incentives.py), with the slashing tiers of src/ltp/economics.py. The service owns no
-- state: it works on the ledger, whose account objects it changes.
pub mod Accounts
pub mod Claims
pub mod Accrual
pub mod Settlement
pub mod Clearing
use suwappu_lattice_protocol.Prelude.{
  ℕ, ◌+◌, ◌-◌, ◌*◌, ◌/◌, Bool, true, false, Option, none, some, List, [], ◌∷◌, ltb, leb, ◌==◌, ◌||◌,
  if◌then◌else◌, Bytes, Result, ok, raise, value_error, ◌>>=◌,
}
use Prim.Native.Nat.{min}
use suwappu_lattice_protocol.Dict.{Dict, insert, total}
use suwappu_lattice_protocol.Ledger.{
  ℤ, pos, negsuc, Account, Ledger, account, open_account, set_account, storage_rate_micro,
  serving_rate_micro, pay_from_pool, slash_bond,
}

pub data SlashingTier : Type 0 where
  warning minor major critical : SlashingTier

-- `SLASHING_RATES`, in basis points
unfoldable pub slashing_rate : SlashingTier → ℕ
slashing_rate warning = 100
slashing_rate minor = 500
slashing_rate major = 1_500
slashing_rate critical = 3_000

abbrev pub offense_thresholds : List (ℕ × SlashingTier)
offense_thresholds = (1, warning) ∷ (2, minor) ∷ (4, major) ∷ (6, critical) ∷ []

unfoldable pub last_reached : SlashingTier → List (ℕ × SlashingTier) → ℕ → SlashingTier
last_reached tier [] count = tier
last_reached tier ((threshold, t) ∷ rest) count =
    last_reached (if leb threshold count then t else tier) rest count

unfoldable pub tier_for_offense_count : ℕ → SlashingTier
unfolding last_reached
tier_for_offense_count count = last_reached warning offense_thresholds count

pub record MeteredWorkReport : Type 0 where
  pub node_id : Bytes
  pub epoch : ℕ
  pub bytes_stored : ℕ
  pub seconds_stored : ℕ
  pub bytes_served : ℕ
  pub audits_passed : ℕ
  pub audits_total : ℕ

unfoldable pub non_negative : ℤ → Result ℕ
non_negative (pos n) = ok n
non_negative (negsuc n) = raise value_error

-- `__post_init__`
unfoldable pub make_report : Bytes → ℕ → ℤ → ℤ → ℤ → ℤ → ℤ → Result MeteredWorkReport
make_report node_id epoch bytes_stored seconds_stored bytes_served audits_passed audits_total = do
  stored ← non_negative bytes_stored
  seconds ← non_negative seconds_stored
  served ← non_negative bytes_served
  passed ← non_negative audits_passed
  all ← non_negative audits_total
  let report : MeteredWorkReport = record {
    node_id = node_id;
    epoch = epoch;
    bytes_stored = stored;
    seconds_stored = seconds;
    bytes_served = served;
    audits_passed = passed;
    audits_total = all;
  }
  (if ltb all passed then raise value_error else ok report)

abbrev pub audit_failures : MeteredWorkReport → ℕ
audit_failures r = r.audits_total - r.audits_passed

-- What `compensate` and `accrue_report` meter.
unfoldable pub metered : Ledger → ℕ → ℕ → ℕ → ℕ
metered l bytes_stored seconds_stored bytes_served =
    storage_rate_micro l.config (bytes_stored * seconds_stored)
    + serving_rate_micro l.config bytes_served

-- `acct.earned_claim_micro += reward`
unfoldable pub add_claim : Ledger → Bytes → ℕ → Ledger
add_claim l node_id reward =
    let a = account l node_id in
    set_account l node_id (record a { earned_claim_micro = a.earned_claim_micro + reward })

unfoldable pub compensate : Ledger → Bytes → ℤ → ℤ → ℤ → Result (Ledger × ℕ)
compensate l node_id bytes_stored seconds_stored bytes_served = do
  stored ← non_negative bytes_stored
  seconds ← non_negative seconds_stored
  served ← non_negative bytes_served
  let reward = metered l stored seconds served
  (if (account l node_id).evicted then ok (l, 0) else ok (add_claim l node_id reward, reward))

-- `acct.audit_offense_count += audit_failure_count`
unfoldable pub add_offenses : Ledger → Bytes → ℕ → Ledger
add_offenses l node_id count =
    let a = account l node_id in
    set_account l node_id (record a { audit_offense_count = a.audit_offense_count + count })

unfoldable pub penalty : Account → ℕ
penalty a = a.bond_micro * slashing_rate (tier_for_offense_count a.audit_offense_count) / 10_000

unfoldable pub slash : Ledger → Bytes → ℕ → Result (Ledger × ℕ)
slash l node_id audit_failure_count =
    let l' = add_offenses l node_id audit_failure_count in
    if audit_failure_count == 0
    then ok (l, 0)
    else slash_bond l' node_id (pos (penalty (account l' node_id)))

-- The accrual of `accrue_report`, before a slash.
unfoldable pub accrue : Ledger → MeteredWorkReport → Ledger × ℕ
accrue l r =
    let accrued =
      metered l r.bytes_stored r.seconds_stored r.bytes_served * r.audits_passed / r.audits_total in
    if (account l r.node_id).evicted || (r.audits_total == 0)
    then (open_account l r.node_id, 0)
    else (add_claim l r.node_id accrued, accrued)

abbrev pub slashed_after : ℕ → Ledger × ℕ → Result (Ledger × ℕ)
slashed_after accrued (l, penalty) = ok (l, accrued)

unfoldable pub accrue_report : Ledger → MeteredWorkReport → Result (Ledger × ℕ)
accrue_report l r =
    let p = accrue l r in
    if leb l.config.slash_failure_threshold (audit_failures r)
    then (slash p.0 r.node_id (audit_failures r) >>= slashed_after p.1)
    else ok p

pub record EpochPayoutSnapshot : Type 0 where
  pub epoch : ℕ
  pub total_claims_micro : ℕ
  pub total_paid_micro : ℕ
  pub pool_before_micro : ℕ
  pub pool_after_micro : ℕ
  pub payouts : Dict ℕ
  pub carried_claims : Dict ℕ

abbrev pub fully_funded : EpochPayoutSnapshot → Bool
fully_funded s = s.total_paid_micro == s.total_claims_micro

abbrev pub claim : Account → ℕ
claim a = a.earned_claim_micro

-- The accounts with a claim: of each, its node.
unfoldable pub claimants : Dict Account → List Bytes
claimants [] = []
claimants ((k, a) ∷ d) = if ltb 0 (claim a) then k ∷ claimants d else claimants d

-- `sum` over those accounts
unfoldable pub sum_claims : Dict Account → ℕ
sum_claims [] = 0
sum_claims ((k, a) ∷ d) = if ltb 0 (claim a) then claim a + sum_claims d else sum_claims d

unfoldable pub note_payout : EpochPayoutSnapshot → Bytes → ℕ → ℕ → EpochPayoutSnapshot
note_payout s node_id paid carried = record s {
  payouts = insert node_id paid s.payouts;
  total_paid_micro = s.total_paid_micro + paid;
  carried_claims =
      if ltb 0 carried then insert node_id carried s.carried_claims else s.carried_claims;
}

-- `acct.earned_claim_micro -= paid`, and what the snapshot keeps of it
unfoldable pub settled : Bytes → EpochPayoutSnapshot → Ledger × ℕ → Ledger × EpochPayoutSnapshot
settled node_id s (l, paid) =
    let a = account l node_id in
    let carried = claim a - paid in
    (
      set_account l node_id (record a { earned_claim_micro = carried }),
      note_payout s node_id paid carried,
    )

-- The body of the loop of `settle_epoch`.
unfoldable pub settle_one :
    ℕ → ℕ → Bytes → Ledger × EpochPayoutSnapshot → Result (Ledger × EpochPayoutSnapshot)
settle_one budget total_claims node_id (l, s) =
    let share = claim (account l node_id) * budget / total_claims in
    pay_from_pool l node_id (pos share) >>= λ p. ok (settled node_id s p)

unfoldable pub settle_all :
    ℕ → ℕ → List Bytes → Ledger × EpochPayoutSnapshot → Result (Ledger × EpochPayoutSnapshot)
settle_all budget total_claims [] p = ok p
settle_all budget total_claims (k ∷ ks) p =
    settle_one budget total_claims k p >>= settle_all budget total_claims ks

abbrev pub close_books : Ledger × EpochPayoutSnapshot → Result (Ledger × EpochPayoutSnapshot)
close_books (l, s) = ok (l, record s { pool_after_micro = l.operator_pool_micro })

abbrev pub opening : Ledger → ℕ → EpochPayoutSnapshot
opening l epoch = record {
  epoch = epoch;
  total_claims_micro = sum_claims l.accounts;
  total_paid_micro = 0;
  pool_before_micro = l.operator_pool_micro;
  pool_after_micro = l.operator_pool_micro;
  payouts = [];
  carried_claims = [];
}

unfoldable pub settle_epoch : Ledger → ℕ → Result (Ledger × EpochPayoutSnapshot)
settle_epoch l epoch =
    let total_claims = sum_claims l.accounts in
    let budget = min total_claims l.operator_pool_micro in
    if total_claims == 0
    then ok (l, opening l epoch)
    else (settle_all budget total_claims (claimants l.accounts) (l, opening l epoch)
        >>= close_books)
