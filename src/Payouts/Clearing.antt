-- ===== src/Payouts/Clearing.antt =====
-- A settlement from a pool that covers all claims.
use suwappu_lattice_protocol.Prelude.{
  ℕ, ◌*◌, ◌/◌, ◌≤◌, ◌≡◌, refl, ap, subst, ◌∙◌, Bool, true, false, inl, inr, List, [], ◌∷◌,
  if◌then◌else◌, Bytes, bytes_eq, ok, ok-inj, bind-eq_ok, bytes_eq→eq, arith, Bool-cases, ltb-cases,
  ==-cases,
}
use Prim.Native.Nat.{min}
use native.Mathlib.Nat.{mul-div_cancel}
use suwappu_lattice_protocol.Dict.{Dict, lookup, total}
use suwappu_lattice_protocol.Ledger.{Account, new_account, Ledger, or_else, account}
use suwappu_lattice_protocol.Payouts.{
  EpochPayoutSnapshot, claim, claimants, sum_claims, settle_all, close_books, opening, settle_epoch,
}
use suwappu_lattice_protocol.Payouts.Settlement.{
  settle_one-Pays, claim-le-total, sum_claims-total, settle_epoch-paid,
}

-- The nodes of the list, and the nodes that are owed nothing.
abbrev listed : Bytes → List Bytes → Bool
listed j [] = false
listed j (k ∷ ks) = if bytes_eq k j then true else listed j ks

claimants-listed :
    (j : Bytes) (d : Dict Account)
    → listed j (claimants d) ≡ false
    → claim (or_else new_account (lookup j d)) ≡ 0
unfolding claimants lookup
claimants-listed j [] h = refl
claimants-listed j ((k, a) ∷ d) h = elim (ltb-cases 0 (claim a)) [
  | inl (lt, owed) ↦ elim (Bool-cases (bytes_eq k j)) [
    | inl here ↦ absurd (let f = rw (owed, here) at h in cc)
    | inr other ↦ rw other (claimants-listed j d (rw (owed, other) at h))
  ]
  | inr (le, clear) ↦ elim (Bool-cases (bytes_eq k j)) [
    | inl here ↦ rw here (omega arith)
    | inr other ↦ rw other (claimants-listed j d (rw clear at h))
  ]
]

-- With a pool that covers all claims, a turn pays the node all it is owed.
whole_share : (c t pool : ℕ) → c ≤ t → 1 ≤ t → c ≤ pool → min (c * t / t) pool ≡ c
whole_share c t pool le nonzero fits = omega (arith, mul-div_cancel c {n = t} nonzero)

-- So the covered claims of the listed nodes are cleared, and the others stay cleared.
settle_all-clears :
    (t : ℕ) (ks : List Bytes) (l : Ledger) (s : EpochPayoutSnapshot) (j : Bytes)
    → 1 ≤ t
    → total claim l.accounts ≤ t
    → total claim l.accounts ≤ l.operator_pool_micro
    → (listed j ks ≡ false → claim (account l j) ≡ 0)
    → (l' : Ledger) (s' : EpochPayoutSnapshot) → settle_all t t ks (l, s) ≡ ok (l', s')
    → claim (account l' j) ≡ 0
unfolding settle_all
settle_all-clears t [] l s j nonzero le covered done l' s' e =
    subst (λ p. claim (account p.0 j) ≡ 0) (ok-inj e) (done refl)
settle_all-clears t (k ∷ ks) l s j nonzero le covered done l' s' e =
    let (v, r, f, (p, paid, same)) = settle_one-Pays t t k l s (omega arith) in
    let below : claim (account l k) ≤ total claim l.accounts = claim-le-total l k in
    let whole : min (claim (account l k) * t / t) l.operator_pool_micro ≡ claim (account l k) =
      whole_share (claim (account l k)) t l.operator_pool_micro (omega arith) nonzero
        (omega arith) in
    let rest : listed j ks ≡ false → claim (account v j) ≡ 0 = λ absent.
      elim (Bool-cases (bytes_eq k j)) [
        | inl here ↦
            subst (λ i. claim (account v i) ≡ 0) (bytes_eq→eq k j here)
              (omega (arith, p.mine, whole))
        | inr other ↦ ap claim (p.others j other) ∙ done (rw other absent)
      ] in
    settle_all-clears t ks v r j nonzero (omega (arith, p.claims)) (omega (arith, p.claims, p.pool))
      rest l' s' (rw f at e)

cleared :
    (l l' : Ledger) (epoch : ℕ) (s : EpochPayoutSnapshot)
    → total claim l.accounts ≤ l.operator_pool_micro
    → settle_epoch l epoch ≡ ok (l', s)
    → (j : Bytes) → claim (account l' j) ≡ 0
unfolding settle_epoch account
cleared l l' epoch s covered e j = elim (==-cases (sum_claims l.accounts) 0) [
  | inl (z, b) ↦
      let same = ok-inj (rw b at e) in
      subst (λ p. claim (account p.0 j) ≡ 0) same
        (omega (arith, claim-le-total l j, sum_claims-total l.accounts))
  | inr (ne, b) ↦
      let sum = sum_claims-total l.accounts in
      let (p, run, closed) =
        bind-eq_ok (settle_all _ _ (claimants l.accounts) (l, opening l epoch)) close_books
          (rw b at e) in
      let cover : min (sum_claims l.accounts) l.operator_pool_micro ≡ sum_claims l.accounts =
        omega arith in
      let (v, r) = p in
      let done =
        settle_all-clears (sum_claims l.accounts) (claimants l.accounts) l (opening l epoch) j
          (omega arith) (omega arith) covered (λ absent. claimants-listed j l.accounts absent) v r
          (rw cover at run) in
      subst (λ p. claim (account p.0 j) ≡ 0) (ok-inj closed) done
]

-- Where the pool covers the claims of all nodes, the settlement returns and leaves no node with a
-- claim.
pub settle_epoch-clears :
    (l : Ledger) (epoch : ℕ)
    → total claim l.accounts ≤ l.operator_pool_micro
    → (l' : Ledger) × (s : EpochPayoutSnapshot) × (settle_epoch l epoch ≡ ok (l', s))
      × ((j : Bytes) → claim (account l' j) ≡ 0)
settle_epoch-clears l epoch covered =
    let (l', s, e, pool, claims, closed, solvent) = settle_epoch-paid l epoch in
    (l', s, e, λ j. cleared l l' epoch s covered e j)
