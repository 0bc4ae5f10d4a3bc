-- ===== src/Payouts/Accrual.antt =====
-- Accrual never touches the pool: what an audited report earns, and what its failures cost.
use suwappu_lattice_protocol.Prelude.{
  ◌<◌, false, bytes_eq, leb-cases, ℕ, ◌+◌, ◌-◌, ◌*◌, ◌/◌, ◌≤◌, ◌≡◌, refl, ap, ◌∙◌, true, inl, inr,
  Option, none, some, ◌==◌, ◌||◌, Bytes, ok, arith, Bool-cases, ==-cases,
}
use native.Mathlib.Nat.{div-mul-le_self}
use suwappu_lattice_protocol.Ledger.{
  pos, Account, Ledger, account, open_if_absent, open_account, set_account, slash_bond,
}
use suwappu_lattice_protocol.Ledger.Solvency.{IsSolvent, bonds-insert, after, touch, bond}
use suwappu_lattice_protocol.Ledger.Solvency
use suwappu_lattice_protocol.Ledger.Solvency.Runs.{after-IsSolvent}
use Prim.Native.Nat.{min}
use suwappu_lattice_protocol.Dict.{lookup}
use suwappu_lattice_protocol.Payouts.Accounts.{account-set_self}
use suwappu_lattice_protocol.Payouts.Claims.{slash-SameClaims, accrue-claims, accrue-insurance}
use suwappu_lattice_protocol.Payouts.{
  claim, SlashingTier, warning, minor, major, critical, slashing_rate, tier_for_offense_count,
  MeteredWorkReport, audit_failures, metered, add_claim, add_offenses, penalty, slash, accrue,
  accrue_report,
}

-- A change that leaves the pool and the books alone.
pub record Meters (l l' : Ledger) : Type 0 where
  pub pool : l'.operator_pool_micro ≡ l.operator_pool_micro
  pub solvent : IsSolvent l → IsSolvent l'

pub same_bond-Meters :
    (l : Ledger) (k : Bytes) (a : Account)
    → bond a ≡ bond (account l k)
    → Meters l (set_account l k a)
unfolding set_account
same_bond-Meters l k a e = record {
  pool = refl;
  solvent =
      λ s. record { shares = s.shares; books = omega (arith, s.books, bonds-insert l k a, e) };
}

opened-pool :
    (l : Ledger) (k : Bytes) (o : Option Account)
    → (open_if_absent l k o).operator_pool_micro ≡ l.operator_pool_micro
opened-pool l k none = refl
opened-pool l k (some a) = refl

open_account-Meters : (l : Ledger) (k : Bytes) → Meters l (open_account l k)
unfolding open_account after
open_account-Meters l k = record {
  pool = opened-pool l k (lookup k l.accounts);
  solvent = λ s. after-IsSolvent l (touch k) s;
}

pub Meters-then : (l v u : Ledger) → Meters l v → Meters v u → Meters l u
Meters-then l v u s t = record { pool = t.pool ∙ s.pool; solvent = λ h. t.solvent (s.solvent h) }

-- A slash that the bond covers.
slash_bond-exact :
    (l : Ledger) (k : Bytes) (n : ℕ)
    → n ≤ bond (account l k)
    → (l' : Ledger) × (slash_bond l k (pos n) ≡ ok (l', n))
      × Meters l l'
      × (bond (account l' k) + n ≡ bond (account l k))
      × (l'.insurance_pool_micro ≡ l.insurance_pool_micro + n)
unfolding slash_bond after account set_account
slash_bond-exact l k n le =
    let whole : min n (bond (account l k)) ≡ n = omega arith in
    let a = account l k in
    let b = record a {
      bond_micro = a.bond_micro - n;
      slashed_total_micro = a.slashed_total_micro + n;
    } in
    let v : Ledger = record (set_account l k b) {
      insurance_pool_micro = l.insurance_pool_micro + n;
    } in
    (
      v,
      rw whole refl,
      record {
        pool = refl;
        solvent = λ s. rw whole at (after-IsSolvent l (Solvency.slash k (pos n)) s);
      },
      omega (arith, ap bond (account-set_self l k b)),
      refl,
    )

rate-le : (t : SlashingTier) → slashing_rate t ≤ 3_000
unfolding slashing_rate
rate-le warning = omega arith
rate-le minor = omega arith
rate-le major = omega arith
rate-le critical = omega arith

share_of_bond : (b r : ℕ) → r ≤ 3_000 → (b * r / 10_000) * 10_000 ≤ b * 3_000
share_of_bond b r h = grind (arith, div-mul-le_self (b * r) 10_000)

penalty-bound : (a : Account) → penalty a * 10_000 ≤ bond a * 3_000
unfolding penalty
penalty-bound a =
    share_of_bond (bond a) (slashing_rate (tier_for_offense_count a.audit_offense_count))
      (rate-le _)

-- A slash for at least one failure takes the penalty of the tier that the node's offenses reach with
-- it out of the bond and into the insurance pool: never more than 30 percent of the bond, and
-- nothing out of the operator pool.
pub slash-penalty :
    (l : Ledger) (k : Bytes) (count : ℕ)
    → 1 ≤ count
    → (l' : Ledger) × (p : ℕ) × (slash l k count ≡ ok (l', p))
      × (p
          ≡ bond (account l k)
            * slashing_rate (tier_for_offense_count ((account l k).audit_offense_count + count))
            / 10_000)
      × (p * 10_000 ≤ bond (account l k) * 3_000)
      × (bond (account l' k) + p ≡ bond (account l k))
      × (l'.insurance_pool_micro ≡ l.insurance_pool_micro + p)
      × Meters l l'
unfolding slash add_offenses penalty account set_account
slash-penalty l k count h =
    let a = account l k in
    let b = record a { audit_offense_count = a.audit_offense_count + count } in
    let some_fail : (count == 0) ≡ false = ground arith in
    let v = set_account l k b in
    let here = account-set_self l k b in
    let bound = penalty-bound b in
    let (u, e, m, rest, pool) = slash_bond-exact v k (penalty b) (rw here (omega (arith, bound))) in
    (
      u,
      penalty b,
      rw (some_fail, here) e,
      refl,
      bound,
      rest ∙ ap bond here,
      pool,
      Meters-then l v u (same_bond-Meters l k b refl) m,
    )

slash-Meters :
    (l : Ledger) (k : Bytes) (count : ℕ)
    → (l' : Ledger) × (p : ℕ) × (slash l k count ≡ ok (l', p)) × Meters l l'
unfolding slash
slash-Meters l k count = elim (==-cases count 0) [
  | inl (z, e) ↦ (l, 0, rw e refl, record { pool = refl; solvent = λ s. s })
  | inr (nz, e) ↦
      let (u, p, f, x, y, z, w, m) = slash-penalty l k count (omega arith) in (u, p, f, m)
]

accrue-Meters : (l : Ledger) (r : MeteredWorkReport) → Meters l (accrue l r).0
unfolding accrue add_claim
accrue-Meters l r = elim (Bool-cases ((account l r.node_id).evicted || (r.audits_total == 0))) [
  | inl no_pay ↦ rw no_pay (open_account-Meters l r.node_id)
  | inr pay ↦ rw pay (same_bond-Meters l r.node_id _ refl)
]

part-le : (m p t : ℕ) → p ≤ t → m * p / t ≤ m
part-le m p t h = grind arith

accrue-le :
    (l : Ledger) (r : MeteredWorkReport)
    → r.audits_passed ≤ r.audits_total
    → (accrue l r).1 ≤ metered l r.bytes_stored r.seconds_stored r.bytes_served
unfolding accrue
accrue-le l r h = elim (Bool-cases ((account l r.node_id).evicted || (r.audits_total == 0))) [
  | inl no_pay ↦ rw no_pay (omega arith)
  | inr pay ↦ rw pay (
      part-le (metered l r.bytes_stored r.seconds_stored r.bytes_served) r.audits_passed
        r.audits_total h)
]

accrue-evicted :
    (l : Ledger) (r : MeteredWorkReport) → (account l r.node_id).evicted ≡ true → (accrue l r).1 ≡ 0
unfolding accrue
accrue-evicted l r h = ground arith

accrue-unproven : (l : Ledger) (r : MeteredWorkReport) → r.audits_total ≡ 0 → (accrue l r).1 ≡ 0
unfolding accrue
accrue-unproven l r h = ground arith

-- `accrue_report` returns on a report whose audits add up. What it accrues is what is metered times
-- the part of the audits that passed, so at most what is metered, and nothing for an evicted node or
-- without audits. Exactly that is added to the node's claim, and no other claim changes, also where
-- the report's failures are slashed. The operator pool is not touched, the insurance pool not for
-- fewer failures than the threshold, and the books of a solvent ledger still hold.
pub accrue_report-bounds :
    (l : Ledger) (r : MeteredWorkReport)
    → r.audits_passed ≤ r.audits_total
    → (l' : Ledger) × (accrued : ℕ) × (accrue_report l r ≡ ok (l', accrued))
      × (accrued ≤ metered l r.bytes_stored r.seconds_stored r.bytes_served)
      × ((account l r.node_id).evicted ≡ true → accrued ≡ 0)
      × (r.audits_total ≡ 0 → accrued ≡ 0)
      × ((account l r.node_id).evicted ≡ false
          → 1 ≤ r.audits_total
          → accrued
            ≡ metered l r.bytes_stored r.seconds_stored r.bytes_served
              * r.audits_passed
              / r.audits_total)
      × (claim (account l' r.node_id) ≡ claim (account l r.node_id) + accrued)
      × ((j : Bytes) → bytes_eq r.node_id j ≡ false → claim (account l' j) ≡ claim (account l j))
      × (l'.operator_pool_micro ≡ l.operator_pool_micro)
      × (audit_failures r < l.config.slash_failure_threshold
          → l'.insurance_pool_micro ≡ l.insurance_pool_micro)
      × (IsSolvent l → IsSolvent l')
unfolding accrue_report
accrue_report-bounds l r h =
    let m = accrue-Meters l r in
    let le = accrue-le l r h in
    let (own, others, exact) = accrue-claims l r in
    elim (leb-cases l.config.slash_failure_threshold (audit_failures r)) [
      | inl (reached, many) ↦
          let (u, p, e, s) = slash-Meters (accrue l r).0 r.node_id (audit_failures r) in
          let t = Meters-then l (accrue l r).0 u m s in
          let same = slash-SameClaims (accrue l r).0 u r.node_id (audit_failures r) p e in
          (
            u,
            (accrue l r).1,
            rw (many, e) refl,
            le,
            accrue-evicted l r,
            accrue-unproven l r,
            exact,
            same r.node_id ∙ own,
            λ j ne. same j ∙ others j ne,
            t.pool,
            λ few. absurd (omega (arith, few, reached)),
            t.solvent,
          )
      | inr (below, few) ↦ (
        (accrue l r).0,
        (accrue l r).1,
        rw few refl,
        le,
        accrue-evicted l r,
        accrue-unproven l r,
        exact,
        own,
        others,
        m.pool,
        λ f. accrue-insurance l r,
        m.solvent,
      )
    ]
