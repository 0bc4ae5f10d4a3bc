-- ===== src/Deposits/Crediting.antt =====
-- What a batch of events does to the watcher and its ledger.
use suwappu_lattice_protocol.Prelude.{
  ℕ, ◌+◌, ◌≡◌, refl, sym, ap, subst, ◌∙◌, true, false, Option, none, some, inl, inr, List, [], ◌∷◌,
  ◌++◌, ltb, Bytes, ok, ◌>>=◌, bind-eq_ok, ok-inj, arith, length, length-append, Bool-cases,
}
use suwappu_lattice_protocol.Dict.{Dict, lookup, insert, lookup-insert}
use suwappu_lattice_protocol.Ledger.{pos, Ledger, customer_deposit, is_empty}
use suwappu_lattice_protocol.Deposits.{
  present, DepositEvent, CreditedDeposit, DepositWatcher, is_some, record_credit, attribute,
  process_event, add_credits, proceed, process, credited_count,
}

abbrev pub amounts : List CreditedDeposit → ℕ
amounts [] = 0
amounts (c ∷ cs) = c.amount_micro + amounts cs

length-insert {ℓ} :
    {V : Type ℓ} (k : Bytes) (v : V) (d : Dict V)
    → lookup k d ≡ none
    → length (insert k v d) ≡ length d + 1
unfolding lookup insert
length-insert k v [] h = refl
length-insert k v ((j, w) ∷ d) h = ground (arith, length-insert k v d)

-- One event: what it adds to the set, to the ledger's books and to the credits.
pub record Step (w w' : DepositWatcher) (cs : List CreditedDeposit) : Type 0 where
  pub count : credited_count w' ≡ credited_count w + length cs
  pub money : w'.ledger.total_deposited ≡ w.ledger.total_deposited + amounts cs
  pub paid_out : w'.ledger.total_withdrawn ≡ w.ledger.total_withdrawn
  pub same_bindings : w'.bindings ≡ w.bindings
  pub same_depth : w'.min_confirmations ≡ w.min_confirmations
  pub kept :
      (tx : Bytes)
      → is_some (lookup tx w.credited_tx) ≡ true
      → is_some (lookup tx w'.credited_tx) ≡ true

deposit-books :
    (l : Ledger) (k : Bytes) (a : ℕ) (p : Ledger × ℕ)
    → customer_deposit l k (pos a) ≡ ok p
    → (p.0.total_deposited ≡ l.total_deposited + a) × (p.0.total_withdrawn ≡ l.total_withdrawn)
unfolding customer_deposit is_empty
deposit-books l [] a p h = cc
deposit-books l (c ∷ cs) a p h = let e = sym (ok-inj h) in rw e (refl, refl)

Step-none : (w : DepositWatcher) → Step w w []
Step-none w = record {
  count = omega arith;
  money = omega arith;
  paid_out = refl;
  same_bindings = refl;
  same_depth = refl;
  kept = λ tx h. h;
}

is_some-insert {ℓ} :
    {V : Type ℓ} (k j : Bytes) (v : V) (d : Dict V)
    → is_some (lookup j d) ≡ true
    → is_some (lookup j (insert k v d)) ≡ true
is_some-insert k j v d h = rw (lookup-insert k j v d) (ground arith)

is_some-none {ℓ} : {A : Type ℓ} (o : Option A) → is_some o ≡ false → o ≡ none
is_some-none none h = refl
is_some-none (some a) h = cc

Step-credit :
    (w : DepositWatcher) (e : DepositEvent) (k : Bytes) (p : Ledger × ℕ)
    → lookup e.tx_hash w.credited_tx ≡ none
    → customer_deposit w.ledger k (pos e.amount_micro) ≡ ok p
    → Step w (record_credit w e k p).0 (record_credit w e k p).1
unfolding record_credit
Step-credit w e k p fresh h = record {
  count = length-insert e.tx_hash present w.credited_tx fresh;
  money = omega (arith, (deposit-books w.ledger k e.amount_micro p h).0);
  paid_out = (deposit-books w.ledger k e.amount_micro p h).1;
  same_bindings = refl;
  same_depth = refl;
  kept = λ tx old. is_some-insert e.tx_hash tx present w.credited_tx old;
}

Step-attribute :
    (w : DepositWatcher) (e : DepositEvent) (o : Option Bytes)
    (p : DepositWatcher × List CreditedDeposit)
    → lookup e.tx_hash w.credited_tx ≡ none
    → attribute w e o ≡ ok p
    → Step w p.0 p.1
unfolding attribute
Step-attribute w e none p fresh h =
    subst (λ q. Step w q.0 q.1) (ok-inj h)
      (record {
        count = omega arith;
        money = omega arith;
        paid_out = refl;
        same_bindings = refl;
        same_depth = refl;
        kept = λ tx h. h;
      })
Step-attribute w e (some k) p fresh h =
    let (q, paid, here) = bind-eq_ok (customer_deposit w.ledger k (pos e.amount_micro)) _ h in
    subst (λ q. Step w q.0 q.1) (ok-inj here) (Step-credit w e k q fresh paid)

pub Step-event :
    (w : DepositWatcher) (e : DepositEvent) (p : DepositWatcher × List CreditedDeposit)
    → process_event w e ≡ ok p
    → Step w p.0 p.1
unfolding process_event
Step-event w e p h = elim (Bool-cases (is_some (lookup e.tx_hash w.credited_tx))) [
  | inl old ↦ subst (λ q. Step w q.0 q.1) (ok-inj (rw old at h)) (Step-none w)
  | inr new ↦ elim (Bool-cases (ltb e.confirmations w.min_confirmations)) [
    | inl low ↦ subst (λ q. Step w q.0 q.1) (ok-inj (rw (new, low) at h)) (Step-none w)
    | inr deep ↦
        Step-attribute w e (lookup e.sender w.bindings) p (is_some-none _ new) (rw (new, deep) at h)
  ]
]

amounts-append : (cs ds : List CreditedDeposit) → amounts (cs ++ ds) ≡ amounts cs + amounts ds
amounts-append [] ds = omega arith
amounts-append (c ∷ cs) ds = omega (arith, amounts-append cs ds)

Step-then :
    (w v u : DepositWatcher) (cs ds : List CreditedDeposit)
    → Step w v cs
    → Step v u ds
    → Step w u (cs ++ ds)
Step-then w v u cs ds s t = record {
  count = omega (arith, s.count, t.count, length-append cs ds);
  money = omega (arith, s.money, t.money, amounts-append cs ds);
  paid_out = t.paid_out ∙ s.paid_out;
  same_bindings = t.same_bindings ∙ s.same_bindings;
  same_depth = t.same_depth ∙ s.same_depth;
  kept = λ tx h. t.kept tx (s.kept tx h);
}

-- Every binding names a customer.
abbrev pub NamesGiven : DepositWatcher → Type 0
NamesGiven w = (k c : Bytes) → lookup k w.bindings ≡ some c → is_empty c ≡ false

attribute-ok :
    (w : DepositWatcher) (e : DepositEvent) (o : Option Bytes)
    → ((c : Bytes) → o ≡ some c → is_empty c ≡ false)
    → (p : DepositWatcher × List CreditedDeposit) × (attribute w e o ≡ ok p)
unfolding attribute customer_deposit is_empty
attribute-ok w e none named = (_, refl)
attribute-ok w e (some []) named = absurd (let h = named [] refl in cc)
attribute-ok w e (some (c ∷ cs)) named = (_, refl)

pub process_event-ok :
    (w : DepositWatcher) (e : DepositEvent)
    → NamesGiven w
    → (p : DepositWatcher × List CreditedDeposit) × (process_event w e ≡ ok p)
unfolding process_event
process_event-ok w e named = elim (Bool-cases (is_some (lookup e.tx_hash w.credited_tx))) [
  | inl old ↦ ((w, []), rw old refl)
  | inr new ↦ elim (Bool-cases (ltb e.confirmations w.min_confirmations)) [
    | inl low ↦ ((w, []), rw (new, low) refl)
    | inr deep ↦
        let (p, h) = attribute-ok w e (lookup e.sender w.bindings) (named e.sender) in
        (p, rw (new, deep) h)
  ]
]

pub process-cons :
    (w : DepositWatcher) (e : DepositEvent) (es : List DepositEvent)
    (p : DepositWatcher × List CreditedDeposit)
    → process_event w e ≡ ok p
    → process w (e ∷ es) ≡ add_credits p.1 (process p.0 es)
unfolding process
process-cons w e es p h = ap (λ r. proceed w r (λ w'. process w' es)) h

-- Where every binding names a customer, a batch never raises; the number of credited transactions
-- grows by the number of credits and the deposited total by their amounts, nothing is withdrawn, no
-- transaction leaves the credited set, and the bindings and the required depth stay.
pub process-Step :
    (w : DepositWatcher) (es : List DepositEvent)
    → NamesGiven w
    → (cs : List CreditedDeposit) × ((process w es).1 ≡ ok cs) × Step w (process w es).0 cs
unfolding process
process-Step w [] named = ([], refl, Step-none w)
process-Step w (e ∷ es) named =
    let (p, h) = process_event-ok w e named in
    let s = Step-event w e p h in
    let (ds, r, t) =
      process-Step p.0 es
        (λ k c found. named k c (subst (λ b. lookup k b ≡ some c) s.same_bindings found)) in
    (
      p.1 ++ ds,
      ap (λ q. q.1) (process-cons w e es p h) ∙ ap (λ q. q >>= (λ rest. ok (p.1 ++ rest))) r,
      subst (λ q. Step w q.0 (p.1 ++ ds)) (sym (process-cons w e es p h))
          (Step-then w p.0 (process p.0 es).0 p.1 ds s t),
    )
