-- ===== src/Payouts/Accounts.antt =====
-- Accounts that are set, and the claims they hold.
use suwappu_lattice_protocol.Prelude.{
  ◌+◌, ◌≡◌, refl, ◌∙◌, false, Option, none, some, if◌then◌else◌, Bytes, bytes_eq, bytes_eq_refl,
  arith,
}
use suwappu_lattice_protocol.Dict.{lookup, insert, total, value_of, total-insert, lookup-insert}
use suwappu_lattice_protocol.Ledger.{Account, new_account, Ledger, or_else, account, set_account}
use suwappu_lattice_protocol.Payouts.{claim}

claim_of : (o : Option Account) → value_of claim o ≡ claim (or_else new_account o)
claim_of none = refl
claim_of (some a) = refl

pub claims-insert :
    (l : Ledger) (k : Bytes) (a : Account)
    → total claim (insert k a l.accounts) + claim (account l k) ≡ total claim l.accounts + claim a
unfolding account
claims-insert l k a =
    omega (arith, total-insert claim k a l.accounts, claim_of (lookup k l.accounts))

pub account-set :
    (l : Ledger) (k j : Bytes) (a : Account)
    → account (set_account l k a) j ≡ (if bytes_eq k j then a else account l j)
unfolding account set_account
account-set l k j a = rw (lookup-insert k j a l.accounts) (ground arith)

pub account-set_self : (l : Ledger) (k : Bytes) (a : Account) → account (set_account l k a) k ≡ a
account-set_self l k a = account-set l k k a ∙ rw (bytes_eq_refl k) refl

pub account-set_other :
    (l : Ledger) (k j : Bytes) (a : Account)
    → bytes_eq k j ≡ false
    → account (set_account l k a) j ≡ account l j
account-set_other l k j a ne = account-set l k j a ∙ rw ne refl
