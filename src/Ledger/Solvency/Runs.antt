-- ===== src/Ledger/Solvency/Runs.antt =====
-- The ledger's calls that pay out or move bonds, and any run of calls from an empty ledger.
use suwappu_lattice_protocol.Prelude.{
  ◌+◌, ◌-◌, ◌≡◌, refl, true, Option, none, some, List, [], ◌∷◌, subst, Bytes, ok, arith, ==-cases,
  ok-inj, inl, inr, ap, sym, ◌∙◌,
}
use Prim.Native.Nat.{min}
use suwappu_lattice_protocol.Dict.{lookup, insert, total, value_of, total-insert}
use suwappu_lattice_protocol.Ledger.{
  ℤ, pos, negsuc, IncentiveConfig, check_config, with_min_bond, Account, new_account, Ledger, init,
  account, open_if_absent, open_account, set_account, customer_refund, pay_from_pool, slash_bond,
  refund_bond, forfeit_bond_to_insurance, total_held_micro, check_solvency,
}
use suwappu_lattice_protocol.Ledger.Solvency.{
  IsSolvent, Operation, fee, fund, bond_in, deposit, debit, pay, slash, touch, refund, bond_out,
  forfeit, after, run, bond, bonds-insert, balances-remove, after-fee, after-fund, after-bond_in,
  after-deposit, after-debit,
}

after-pay : (l : Ledger) (k : Bytes) (a : ℤ) → IsSolvent l → IsSolvent (after l (pay k a))
unfolding after pay_from_pool set_account
after-pay l k (negsuc n) s = s
after-pay l k (pos a) s = record {
  shares = s.shares;
  books = omega (
    arith,
    s.books,
    bonds-insert l k (record (account l k) {
      paid_total_micro = (account l k).paid_total_micro + min a l.operator_pool_micro;
    }),
  );
}

after-slash : (l : Ledger) (k : Bytes) (a : ℤ) → IsSolvent l → IsSolvent (after l (slash k a))
unfolding after slash_bond set_account
after-slash l k (negsuc n) s = s
after-slash l k (pos a) s =
    let slashed = min a (bond (account l k)) in
    record {
      shares = s.shares;
      books = omega (
        arith,
        s.books,
        bonds-insert l k (record (account l k) {
          bond_micro = bond (account l k) - slashed;
          slashed_total_micro = (account l k).slashed_total_micro + slashed;
        }),
      );
    }

opened :
    (l : Ledger) (k : Bytes) (o : Option Account)
    → lookup k l.accounts ≡ o
    → IsSolvent l
    → IsSolvent (open_if_absent l k o)
opened l k none e s =
    let sum : total bond (insert k new_account l.accounts) + value_of bond none
        ≡ total bond l.accounts + 0 =
      subst
        (λ o.
          total bond (insert k new_account l.accounts) + value_of bond o
          ≡ total bond l.accounts + 0)
        e (total-insert bond k new_account l.accounts) in
    record { shares = s.shares; books = omega (arith, s.books, sum) }
opened l k (some a) e s = s

after-touch : (l : Ledger) (k : Bytes) → IsSolvent l → IsSolvent (after l (touch k))
unfolding after open_account
after-touch l k s = opened l k (lookup k l.accounts) refl s

after-refund : (l : Ledger) (k : Bytes) → IsSolvent l → IsSolvent (after l (refund k))
unfolding after customer_refund
after-refund l k s = record {
  shares = s.shares;
  books = omega (arith, s.books, balances-remove l k);
}

after-bond_out : (l : Ledger) (k : Bytes) → IsSolvent l → IsSolvent (after l (bond_out k))
unfolding after refund_bond set_account
after-bond_out l k s = record {
  shares = s.shares;
  books = omega (arith, s.books, bonds-insert l k (record (account l k) { bond_micro = 0 }));
}

after-forfeit : (l : Ledger) (k : Bytes) → IsSolvent l → IsSolvent (after l (forfeit k))
unfolding after forfeit_bond_to_insurance set_account
after-forfeit l k s = record {
  shares = s.shares;
  books = omega (
    arith,
    s.books,
    bonds-insert l k (record (account l k) {
      bond_micro = 0;
      slashed_total_micro = (account l k).slashed_total_micro + bond (account l k);
    }),
  );
}

-- Every call of the ledger keeps its books.
pub after-IsSolvent : (l : Ledger) (o : Operation) → IsSolvent l → IsSolvent (after l o)
after-IsSolvent l (fee a) = after-fee l a
after-IsSolvent l (fund a) = after-fund l a
after-IsSolvent l (bond_in k a) = after-bond_in l k a
after-IsSolvent l (deposit k a) = after-deposit l k a
after-IsSolvent l (debit k a) = after-debit l k a
after-IsSolvent l (pay k a) = after-pay l k a
after-IsSolvent l (slash k a) = after-slash l k a
after-IsSolvent l (touch k) = after-touch l k
after-IsSolvent l (refund k) = after-refund l k
after-IsSolvent l (bond_out k) = after-bond_out l k
after-IsSolvent l (forfeit k) = after-forfeit l k

run-IsSolvent : (l : Ledger) (os : List Operation) → IsSolvent l → IsSolvent (run l os)
run-IsSolvent l [] s = s
run-IsSolvent l (o ∷ os) s = run-IsSolvent (after l o) os (after-IsSolvent l o s)

-- A configuration that passed the check.
check_config-shares :
    (given c : IncentiveConfig) (min_bond : ℤ)
    → check_config given min_bond ≡ ok c
    → c.fee_operator_share_bps + c.fee_insurance_share_bps + c.fee_treasury_share_bps ≡ 10_000
unfolding check_config with_min_bond
check_config-shares given c (negsuc n) h = ground (arith, h)
check_config-shares given c (pos n) h =
    elim (==-cases
      (given.fee_operator_share_bps + given.fee_insurance_share_bps + given.fee_treasury_share_bps)
      10_000) [
        | inl (e, b) ↦
            let same = ok-inj (rw b at h) in
            ap
              (λ x. x.fee_operator_share_bps + x.fee_insurance_share_bps + x.fee_treasury_share_bps)
              (sym same)
            ∙ e
        | inr (ne, b) ↦ absurd (let f = rw b at h in cc)
      ]

init-IsSolvent :
    (c : IncentiveConfig)
    → c.fee_operator_share_bps + c.fee_insurance_share_bps + c.fee_treasury_share_bps ≡ 10_000
    → IsSolvent (init c)
init-IsSolvent c h = record { shares = ground arith; books = refl }

IsSolvent-check : (l : Ledger) → IsSolvent l → check_solvency l ≡ true
unfolding check_solvency total_held_micro
IsSolvent-check l s = ground (arith, s.books)

-- From an empty ledger whose configuration passes its check, any sequence of calls, those that
-- raise included, leaves a ledger on which `check_solvency` holds.
pub run-check_solvency :
    (given c : IncentiveConfig) (min_bond : ℤ) (os : List Operation)
    → check_config given min_bond ≡ ok c
    → check_solvency (run (init c) os) ≡ true
run-check_solvency given c min_bond os h =
    IsSolvent-check (run (init c) os)
      (run-IsSolvent (init c) os (init-IsSolvent c (check_config-shares given c min_bond h)))
