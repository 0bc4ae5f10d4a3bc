-- ===== src/Tests/Services.antt =====
-- The services on the ledger, run on a ledger with one node.
use suwappu_lattice_protocol.Prelude.{
  ◌*◌, ◌/◌, ◌<◌, ◌&&◌, if◌then◌else◌, bytes_eq, ℕ, ◌+◌, ◌^◌, ◌≤◌, bytes_discrete, ◌≡◌, refl, true,
  false, List, [], ◌∷◌, Bytes, ok, arith,
}
use suwappu_lattice_protocol.Dict.{lookup, insert, total}
use suwappu_lattice_protocol.Ledger
use suwappu_lattice_protocol.Ledger.{
  pos, negsuc, Account, Ledger, account, open_account, new_account,
}
use suwappu_lattice_protocol.Ledger.Solvency.{IsSolvent, bond}
use suwappu_lattice_protocol.Ledger.Solvency
use suwappu_lattice_protocol.Payouts.{
  audit_failures, MeteredWorkReport, EpochPayoutSnapshot, slash, slashing_rate,
  tier_for_offense_count, accrue_report, metered, settle_epoch, claim,
}
use suwappu_lattice_protocol.Payouts.Accrual.{Meters, slash-penalty, accrue_report-bounds}
use suwappu_lattice_protocol.Payouts.Settlement.{settle_epoch-paid}
use suwappu_lattice_protocol.Payouts.Clearing.{settle_epoch-clears}
use suwappu_lattice_protocol.Admission.{
  forfeits, one_of, audit_failure, equivocation, withholding, Admission, accepted, member,
  under_bonded, post_positive, make_admission, is_admitted, apply_detailed, evict, fraud,
}
use suwappu_lattice_protocol.Admission.Eviction.{evict-bond}
use suwappu_lattice_protocol.Admission.Entry.{
  Call, applies, ledger_call, steps, IsOut, apply_detailed-accepted, evict-steps,
}
use suwappu_lattice_protocol.Tests.{config, alice, node}

abbrev bonded : Account
bonded = record new_account {
  bond_micro = 5_000;
  earned_claim_micro = 300;
  audit_offense_count = 3;
}

abbrev stocked : Ledger
stocked = record (Ledger.init config) {
  operator_pool_micro = 1_000;
  accounts = (node, bonded) ∷ (alice, new_account) ∷ [];
}

abbrev report : MeteredWorkReport
report = record {
  node_id = node;
  epoch = 4;
  bytes_stored = 2 ^ 30;
  seconds_stored = 600;
  bytes_served = 2 ^ 30;
  audits_passed = 5;
  audits_total = 9;
}

slash-penalty_example :
    (l' : Ledger) × (p : ℕ) × (slash stocked node 3 ≡ ok (l', p))
    × (p
        ≡ bond (account stocked node)
          * slashing_rate (tier_for_offense_count ((account stocked node).audit_offense_count + 3))
          / 10_000)
    × (p * 10_000 ≤ bond (account stocked node) * 3_000)
    × (bond (account l' node) + p ≡ bond (account stocked node))
    × (l'.insurance_pool_micro ≡ stocked.insurance_pool_micro + p)
    × Meters stocked l'
slash-penalty_example = slash-penalty stocked node 3 (omega arith)

accrue_report-bounds_example :
    (l' : Ledger) × (accrued : ℕ) × (accrue_report stocked report ≡ ok (l', accrued))
    × (accrued ≤ metered stocked report.bytes_stored report.seconds_stored report.bytes_served)
    × ((account stocked report.node_id).evicted ≡ true → accrued ≡ 0)
    × (report.audits_total ≡ 0 → accrued ≡ 0)
    × ((account stocked report.node_id).evicted ≡ false
        → 1 ≤ report.audits_total
        → accrued
          ≡ metered stocked report.bytes_stored report.seconds_stored report.bytes_served
            * report.audits_passed
            / report.audits_total)
    × (claim (account l' report.node_id) ≡ claim (account stocked report.node_id) + accrued)
    × ((j : Bytes)
        → bytes_eq report.node_id j ≡ false
        → claim (account l' j) ≡ claim (account stocked j))
    × (l'.operator_pool_micro ≡ stocked.operator_pool_micro)
    × (audit_failures report < stocked.config.slash_failure_threshold
        → l'.insurance_pool_micro ≡ stocked.insurance_pool_micro)
    × (IsSolvent stocked → IsSolvent l')
accrue_report-bounds_example = accrue_report-bounds stocked report (omega arith)

settle_epoch-paid_example :
    (l' : Ledger) × (s : EpochPayoutSnapshot) × (settle_epoch stocked 4 ≡ ok (l', s))
    × (l'.operator_pool_micro + s.total_paid_micro ≡ stocked.operator_pool_micro)
    × (total claim l'.accounts + s.total_paid_micro ≡ total claim stocked.accounts)
    × (s.pool_after_micro ≡ l'.operator_pool_micro)
    × (IsSolvent stocked → IsSolvent l')
settle_epoch-paid_example = settle_epoch-paid stocked 4

stocked-covered : total claim stocked.accounts ≤ stocked.operator_pool_micro
stocked-covered = omega arith

settle_epoch-clears_example :
    (l' : Ledger) × (s : EpochPayoutSnapshot) × (settle_epoch stocked 4 ≡ ok (l', s))
    × ((j : Bytes) → claim (account l' j) ≡ 0)
settle_epoch-clears_example = settle_epoch-clears stocked 4 stocked-covered

abbrev control : Admission
control = make_admission stocked

abbrev joined : Admission
joined = record control { admitted = (node, member) ∷ [] }

evict-bond_example :
    ((account (evict joined node fraud true).0.ledger node).evicted ≡ true)
    × (is_admitted (evict joined node fraud true).0 node ≡ false)
    × (bond (account (evict joined node fraud true).0.ledger node) ≡ 0)
    × ((evict joined node fraud true).1.bond_refunded_micro
          + (evict joined node fraud true).1.bond_forfeited_micro
        ≡ bond (account joined.ledger node))
    × (IsSolvent joined.ledger → IsSolvent (evict joined node fraud true).0.ledger)
    × ((evict joined node fraud true).1.bond_refunded_micro
        ≡ (if forfeits fraud && true then 0 else bond (account joined.ledger node)))
    × ((evict joined node fraud true).1.bond_forfeited_micro
        ≡ (if forfeits fraud && true then bond (account joined.ledger node) else 0))
    × ((evict joined node fraud true).0.ledger.total_withdrawn
        ≡ joined.ledger.total_withdrawn
          + (if forfeits fraud && true then 0 else bond (account joined.ledger node)))
    × ((evict joined node fraud true).0.ledger.insurance_pool_micro
        ≡ joined.ledger.insurance_pool_micro
          + (if forfeits fraud && true then bond (account joined.ledger node) else 0))
    × ((j : Bytes)
        → bytes_eq node j ≡ false
        → account (evict joined node fraud true).0.ledger j ≡ account joined.ledger j)
evict-bond_example = evict-bond joined node fraud true

-- The four reasons that forfeit a bond, and one that does not.
reasons :
    (forfeits fraud ≡ true)
    × (forfeits audit_failure ≡ true)
    × (forfeits equivocation ≡ true)
    × (forfeits withholding ≡ true)
    × (forfeits (1 ∷ []) ≡ false)
unfolding forfeits one_of bytes_discrete
reasons = (refl, refl, refl, refl, refl)

node-accepted : apply_detailed control node true (pos 0) ≡ ok (joined, accepted)
unfolding apply_detailed account open_account lookup insert bytes_discrete under_bonded
    post_positive
node-accepted = refl

apply_detailed-accepted_example :
    ((account control.ledger node).evicted ≡ false)
    × (true ≡ true)
    × (is_admitted joined node ≡ true)
    × (control.ledger.config.min_bond_micro ≤ bond (account joined.ledger node))
apply_detailed-accepted_example =
    apply_detailed-accepted control joined node true (pos 0) node-accepted

abbrev later_calls : List Call
later_calls = applies node true (pos 9_000) ∷ ledger_call (Solvency.bond_in node (pos 50)) ∷ []

evict-steps_example : IsOut (steps (evict joined node fraud true).0 later_calls) node
evict-steps_example = evict-steps joined node fraud true later_calls
