-- ===== src/Deposits/Replay.antt =====
-- A batch processed again: every event is settled, and settled events credit nothing.
use suwappu_lattice_protocol.Prelude.{
  ◌≡◌, refl, sym, ap, subst, ◌∙◌, Bool, true, false, Option, none, some, inl, inr, List, [], ◌∷◌,
  ltb, if◌then◌else◌, Bytes, ok, ◌>>=◌, bind-eq_ok, ok-inj, Bool-cases, All,
}
use suwappu_lattice_protocol.Dict.{lookup, lookup-insert_self}
use suwappu_lattice_protocol.Ledger.{pos, customer_deposit}
use suwappu_lattice_protocol.Deposits.{
  present, DepositEvent, CreditedDeposit, DepositWatcher, is_some, record_credit, attribute,
  process_event, process,
}
use suwappu_lattice_protocol.Deposits.Crediting.{
  Step, Step-event, NamesGiven, process_event-ok, process-cons, process-Step,
}

-- A later call with these bindings does not credit the event.
abbrev pub settled : DepositWatcher → DepositEvent → Bool
settled w e =
    if is_some (lookup e.tx_hash w.credited_tx)
    then true
    else if ltb e.confirmations w.min_confirmations
    then true
    else if is_some (lookup e.sender w.bindings)
    then false
    else true

settled-Step :
    (w v : DepositWatcher) (cs : List CreditedDeposit) (e : DepositEvent)
    → Step w v cs
    → settled w e ≡ true
    → settled v e ≡ true
settled-Step w v cs e s h = elim (Bool-cases (is_some (lookup e.tx_hash w.credited_tx))) [
  | inl old ↦ rw (s.kept e.tx_hash old) refl
  | inr new ↦ elim (Bool-cases (is_some (lookup e.tx_hash v.credited_tx))) [
    | inl there ↦ rw there refl
    | inr fresh ↦ rw (fresh, s.same_bindings, s.same_depth) (rw new at h)
  ]
]

settled-credit :
    (w : DepositWatcher) (e : DepositEvent) (o : Option Bytes)
    (p : DepositWatcher × List CreditedDeposit)
    → is_some o ≡ true
    → attribute w e o ≡ ok p
    → is_some (lookup e.tx_hash p.0.credited_tx) ≡ true
unfolding attribute record_credit
settled-credit w e none p h q = cc
settled-credit w e (some k) p h q =
    let (b, paid, here) = bind-eq_ok (customer_deposit w.ledger k (pos e.amount_micro)) _ q in
    subst (λ r. is_some (lookup e.tx_hash r.0.credited_tx) ≡ true) (ok-inj here)
      (ap is_some (lookup-insert_self e.tx_hash present w.credited_tx))

opened :
    (w : DepositWatcher) (e : DepositEvent)
    → settled w e ≡ false
    → (is_some (lookup e.tx_hash w.credited_tx) ≡ false)
      × (ltb e.confirmations w.min_confirmations ≡ false)
      × (is_some (lookup e.sender w.bindings) ≡ true)
opened w e h = elim (Bool-cases (is_some (lookup e.tx_hash w.credited_tx))) [
  | inl old ↦ let f = rw old at h in cc
  | inr new ↦ elim (Bool-cases (ltb e.confirmations w.min_confirmations)) [
    | inl low ↦ let f = rw (new, low) at h in cc
    | inr deep ↦ elim (Bool-cases (is_some (lookup e.sender w.bindings))) [
      | inl bound ↦ (new, deep, bound)
      | inr unbound ↦ let f = rw (new, deep, unbound) at h in cc
    ]
  ]
]

settled-event :
    (w : DepositWatcher) (e : DepositEvent) (p : DepositWatcher × List CreditedDeposit)
    → process_event w e ≡ ok p
    → settled p.0 e ≡ true
unfolding process_event
settled-event w e p h = elim (Bool-cases (settled w e)) [
  | inl already ↦ settled-Step w p.0 p.1 e (Step-event w e p h) already
  | inr pending ↦
      let (new, deep, bound) = opened w e pending in
      rw (settled-credit w e (lookup e.sender w.bindings) p bound (rw (new, deep) at h)) refl
]

-- A settled event leaves the ledger, the credited set, the bindings and the depth alone.
record Same (w v : DepositWatcher) : Type 0 where
  pub ledger : v.ledger ≡ w.ledger
  pub credited : v.credited_tx ≡ w.credited_tx
  pub bindings : v.bindings ≡ w.bindings
  pub depth : v.min_confirmations ≡ w.min_confirmations

settled-Same :
    (w v : DepositWatcher) (e : DepositEvent) → Same w v → settled w e ≡ true → settled v e ≡ true
settled-Same w v e s h = rw (s.credited, s.depth, s.bindings) h

Same-unbound :
    (w : DepositWatcher) (e : DepositEvent) (o : Option Bytes)
    → is_some o ≡ false
    → (v : DepositWatcher) × (attribute w e o ≡ ok (v, [])) × Same w v
unfolding attribute
Same-unbound w e none h =
    (_, refl, record { ledger = refl; credited = refl; bindings = refl; depth = refl })
Same-unbound w e (some k) h = cc

process_event-settled :
    (w : DepositWatcher) (e : DepositEvent)
    → settled w e ≡ true
    → (v : DepositWatcher) × (process_event w e ≡ ok (v, [])) × Same w v
unfolding process_event
process_event-settled w e h =
    let same : Same w w = record {
      ledger = refl;
      credited = refl;
      bindings = refl;
      depth = refl;
    } in
    elim (Bool-cases (is_some (lookup e.tx_hash w.credited_tx))) [
      | inl old ↦ (w, rw old refl, same)
      | inr new ↦ elim (Bool-cases (ltb e.confirmations w.min_confirmations)) [
        | inl low ↦ (w, rw (new, low) refl, same)
        | inr deep ↦ elim (Bool-cases (is_some (lookup e.sender w.bindings))) [
          | inl bound ↦ absurd (let f = rw (new, deep, bound) at h in cc)
          | inr unbound ↦
              let (v, q, s) = Same-unbound w e (lookup e.sender w.bindings) unbound in
              (v, rw (new, deep) q, s)
        ]
      ]
    ]

abbrev AllSettled : DepositWatcher → List DepositEvent → Type 0
AllSettled w es = All (λ e. settled w e ≡ true) es

AllSettled-Same :
    (w v : DepositWatcher) (es : List DepositEvent) → Same w v → AllSettled w es → AllSettled v es
AllSettled-Same w v [] s h = tt
AllSettled-Same w v (e ∷ es) s h = (settled-Same w v e s h.0, AllSettled-Same w v es s h.1)

Same-then : (w v u : DepositWatcher) → Same w v → Same v u → Same w u
Same-then w v u s t = record {
  ledger = t.ledger ∙ s.ledger;
  credited = t.credited ∙ s.credited;
  bindings = t.bindings ∙ s.bindings;
  depth = t.depth ∙ s.depth;
}

process-settled :
    (w : DepositWatcher) (es : List DepositEvent)
    → AllSettled w es
    → ((process w es).1 ≡ ok []) × Same w (process w es).0
unfolding process
process-settled w [] h =
    (refl, record { ledger = refl; credited = refl; bindings = refl; depth = refl })
process-settled w (e ∷ es) h =
    let (v, q, s) = process_event-settled w e h.0 in
    let (r, t) = process-settled v es (AllSettled-Same w v es s h.1) in
    (
      ap (λ q. q.1) (process-cons w e es (v, []) q) ∙ ap (λ q. q >>= (λ rest. ok rest)) r,
      subst (λ x. Same w x.0) (sym (process-cons w e es (v, []) q))
          (Same-then w v (process v es).0 s t),
    )

process-AllSettled :
    (w : DepositWatcher) (es : List DepositEvent) → NamesGiven w → AllSettled (process w es).0 es
process-AllSettled w [] named = tt
process-AllSettled w (e ∷ es) named =
    let (p, h) = process_event-ok w e named in
    let s = Step-event w e p h in
    let names : NamesGiven p.0 =
      λ k c found. named k c (subst (λ b. lookup k b ≡ some c) s.same_bindings found) in
    let (ds, r, t) = process-Step p.0 es names in
    subst (λ q. AllSettled q.0 (e ∷ es)) (sym (process-cons w e es p h))
      (
        settled-Step p.0 (process p.0 es).0 ds e t (settled-event w e p h),
        process-AllSettled p.0 es names,
      )

-- Where every binding names a customer, processing a batch again at once credits nothing and
-- changes neither the ledger nor the set of credited transactions.
pub process-replay :
    (w : DepositWatcher) (es : List DepositEvent)
    → NamesGiven w
    → ((process (process w es).0 es).1 ≡ ok [])
      × ((process (process w es).0 es).0.ledger ≡ (process w es).0.ledger)
      × ((process (process w es).0 es).0.credited_tx ≡ (process w es).0.credited_tx)
process-replay w es named =
    let (r, s) = process-settled (process w es).0 es (process-AllSettled w es named) in
    (r, s.ledger, s.credited)
