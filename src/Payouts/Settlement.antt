-- ===== src/Payouts/Settlement.antt =====
-- What an epoch's settlement pays.
use suwappu_lattice_protocol.Prelude.{
  ℕ, ◌+◌, ◌-◌, ◌*◌, ◌/◌, ◌≤◌, ◌≡◌, refl, ap, ◌∙◌, false, inl, inr, List, [], ◌∷◌, Bytes, bytes_eq,
  ok, arith, ==-cases,
}
use Prim.Native.Nat.{min}
use suwappu_lattice_protocol.Dict.{Dict, total}
use suwappu_lattice_protocol.Ledger.{
  pos, Account, new_account, Ledger, account, set_account, pay_from_pool,
}
use suwappu_lattice_protocol.Ledger.Solvency.{IsSolvent, bonds-insert, after, pay}
use suwappu_lattice_protocol.Ledger.Solvency.Runs.{after-IsSolvent}
use suwappu_lattice_protocol.Payouts.{
  EpochPayoutSnapshot, claim, claimants, sum_claims, note_payout, settled, settle_one, settle_all,
  opening, settle_epoch,
}
use suwappu_lattice_protocol.Payouts.Accounts.{claims-insert, account-set_self, account-set_other}

share-le : (c b t : ℕ) → b ≤ t → c * b / t ≤ c
share-le c b t h = grind arith

-- A change of a ledger that pays out of the pool to one node.
pub record Pays (l l' : Ledger) (k : Bytes) (paid claimed : ℕ) : Type 0 where
  pub pool : l'.operator_pool_micro + paid ≡ l.operator_pool_micro
  pub claims : total claim l'.accounts + claimed ≡ total claim l.accounts
  pub mine : claim (account l' k) + claimed ≡ claim (account l k)
  pub others : (j : Bytes) → bytes_eq k j ≡ false → account l' j ≡ account l j
  pub solvent : IsSolvent l → IsSolvent l'

pay_from_pool-Pays :
    (l : Ledger) (k : Bytes) (share : ℕ)
    → (l' : Ledger) × (pay_from_pool l k (pos share) ≡ ok (l', min share l.operator_pool_micro))
      × Pays l l' k (min share l.operator_pool_micro) 0
unfolding pay_from_pool after account set_account
pay_from_pool-Pays l k share =
    let paid = min share l.operator_pool_micro in
    let a = account l k in
    let b = record a { paid_total_micro = a.paid_total_micro + paid } in
    (
      _,
      refl,
      record {
        pool = omega arith;
        claims = omega (arith, claims-insert l k b);
        mine = omega (arith, ap claim (account-set_self l k b));
        others = λ j ne. account-set_other l k j b ne;
        solvent = λ s. after-IsSolvent l (pay k (pos share)) s;
      },
    )

set_claim-Pays :
    (l : Ledger) (k : Bytes) (paid : ℕ)
    → paid ≤ claim (account l k)
    → Pays l
        (set_account l k (record (account l k) { earned_claim_micro = claim (account l k) - paid }))
        k
        0
        paid
unfolding set_account
set_claim-Pays l k paid le =
    let a = account l k in
    let b = record a { earned_claim_micro = a.earned_claim_micro - paid } in
    record {
      pool = omega arith;
      claims = omega (arith, claims-insert l k b);
      mine = omega (arith, ap claim (account-set_self l k b));
      others = λ j ne. account-set_other l k j b ne;
      solvent =
          λ s. record { shares = s.shares; books = omega (arith, s.books, bonds-insert l k b) };
    }

Pays-then :
    (l v u : Ledger) (k : Bytes) (paid : ℕ)
    → Pays l v k paid 0
    → Pays v u k 0 paid
    → Pays l u k paid paid
Pays-then l v u k paid s t = record {
  pool = omega (arith, s.pool, t.pool);
  claims = omega (arith, s.claims, t.claims);
  mine = omega (arith, s.mine, t.mine);
  others = λ j ne. t.others j ne ∙ s.others j ne;
  solvent = λ h. t.solvent (s.solvent h);
}

-- One turn of the loop pays the node its share of the budget, or what the pool has of it.
pub settle_one-Pays :
    (budget t : ℕ) (k : Bytes) (l : Ledger) (s : EpochPayoutSnapshot)
    → budget ≤ t
    → (l' : Ledger) × (s' : EpochPayoutSnapshot) × (settle_one budget t k (l, s) ≡ ok (l', s'))
      × (let paid = min (claim (account l k) * budget / t) l.operator_pool_micro in
          Pays l l' k paid paid
          × (s'.total_paid_micro ≡ s.total_paid_micro + paid)
          × (s'.total_claims_micro ≡ s.total_claims_micro))
unfolding settle_one settled note_payout
settle_one-Pays budget t k l s le =
    let (v, e, p) = pay_from_pool-Pays l k (claim (account l k) * budget / t) in
    let paid = min (claim (account l k) * budget / t) l.operator_pool_micro in
    let within : paid ≤ claim (account v k) =
      omega (arith, share-le (claim (account l k)) budget t le, p.mine) in
    let q = set_claim-Pays v k paid within in
    let final = settled k s (v, paid) in
    (final.0, final.1, rw e refl, (Pays-then l v final.0 k paid p q, refl, refl))

-- What the payments so far have done.
record Settles (l l' : Ledger) (s s' : EpochPayoutSnapshot) : Type 0 where
  pub pool :
      l'.operator_pool_micro + s'.total_paid_micro ≡ l.operator_pool_micro + s.total_paid_micro
  pub claims :
      total claim l'.accounts + s'.total_paid_micro ≡ total claim l.accounts + s.total_paid_micro
  pub asked : s'.total_claims_micro ≡ s.total_claims_micro
  pub solvent : IsSolvent l → IsSolvent l'

settle_all-Settles :
    (budget t : ℕ) (ks : List Bytes) (l : Ledger) (s : EpochPayoutSnapshot)
    → budget ≤ t
    → (l' : Ledger) × (s' : EpochPayoutSnapshot) × (settle_all budget t ks (l, s) ≡ ok (l', s'))
      × Settles l l' s s'
unfolding settle_all
settle_all-Settles budget t [] l s le =
    (l, s, refl, record { pool = refl; claims = refl; asked = refl; solvent = λ h. h })
settle_all-Settles budget t (k ∷ ks) l s le =
    let (v, r, e, (p, paid, same)) = settle_one-Pays budget t k l s le in
    let (u, q, f, g) = settle_all-Settles budget t ks v r le in
    (
      u,
      q,
      rw (e, f) refl,
      record {
        pool = omega (arith, p.pool, g.pool, paid);
        claims = omega (arith, p.claims, g.claims, paid);
        asked = g.asked ∙ same;
        solvent = λ h. g.solvent (p.solvent h);
      },
    )

pub sum_claims-total : (d : Dict Account) → sum_claims d ≡ total claim d
unfolding sum_claims
sum_claims-total [] = refl
sum_claims-total ((k, a) ∷ d) = ground (arith, sum_claims-total d)

pub claim-le-total : (l : Ledger) (k : Bytes) → claim (account l k) ≤ total claim l.accounts
claim-le-total l k = omega (arith, claims-insert l k new_account)

-- `settle_epoch` returns. What it pays comes out of the pool and off the claims of the nodes, so it
-- is no more than either; the books of a solvent ledger still hold.
pub settle_epoch-paid :
    (l : Ledger) (epoch : ℕ)
    → (l' : Ledger) × (s : EpochPayoutSnapshot) × (settle_epoch l epoch ≡ ok (l', s))
      × (l'.operator_pool_micro + s.total_paid_micro ≡ l.operator_pool_micro)
      × (total claim l'.accounts + s.total_paid_micro ≡ total claim l.accounts)
      × (s.pool_after_micro ≡ l'.operator_pool_micro)
      × (IsSolvent l → IsSolvent l')
unfolding settle_epoch
settle_epoch-paid l epoch = elim (==-cases (sum_claims l.accounts) 0) [
  | inl (e, b) ↦ (l, opening l epoch, rw b refl, omega arith, omega arith, refl, λ h. h)
  | inr (ne, b) ↦
      let (v, s, e, g) =
        settle_all-Settles (min (sum_claims l.accounts) l.operator_pool_micro)
          (sum_claims l.accounts) (claimants l.accounts) l (opening l epoch) (omega arith) in
      (
        v,
        record s { pool_after_micro = v.operator_pool_micro },
        rw (b, e) refl,
        omega (arith, g.pool),
        omega (arith, g.claims),
        refl,
        g.solvent,
      )
]
