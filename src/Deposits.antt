-- ===== src/Deposits.antt =====
-- `DepositWatcher` and its events (src/ltp/bridge_deposits.py). The watcher's ledger is a field: a
-- call is one step. Strings are lists of code points; `lower` changes ASCII letters only, and the
-- other letters never lower to a character of a hash or an address.
pub mod Crediting
pub mod Replay
use suwappu_lattice_protocol.Prelude.{
  ℕ, ◌+◌, ◌-◌, Bool, true, false, Option, none, some, List, [], ◌∷◌, ◌++◌, reverse, length, ltb,
  leb, ◌==◌, ◌||◌, ◌&&◌, if◌then◌else◌, Bytes, bytes_eq, Result, ok, raise, ledger_error,
  deposit_error, ◌>>=◌,
}
use suwappu_lattice_protocol.Dict.{Dict, lookup, insert, remove}
use suwappu_lattice_protocol.Ledger.{ℤ, pos, negsuc, Ledger, customer_deposit, is_empty}

-- The characters that `str.strip` removes
unfoldable pub is_space : ℕ → Bool
is_space c =
    leb 9 c && leb c 13
    || leb 28 c && leb c 32
    || c == 133
    || c == 160
    || c == 5760
    || leb 8192 c && leb c 8202
    || leb 8232 c && leb c 8233
    || c == 8239
    || c == 8287
    || c == 12288

unfoldable pub skip_spaces : Bytes → Bytes
skip_spaces [] = []
skip_spaces (c ∷ cs) = if is_space c then skip_spaces cs else c ∷ cs

unfoldable pub strip : Bytes → Bytes
strip s = reverse (skip_spaces (reverse (skip_spaces s)))

unfoldable pub lower : Bytes → Bytes
lower [] = []
lower (c ∷ cs) = (if leb 65 c && leb c 90 then c + 32 else c) ∷ lower cs

unfoldable pub all_hex : Bytes → Bool
all_hex [] = true
all_hex (c ∷ cs) = (leb 48 c && leb c 57 || leb 97 c && leb c 102) && all_hex cs

-- `^0x[0-9a-f]{n}$`, on a stripped string
unfoldable pub matches_hex : ℕ → Bytes → Bool
matches_hex n (c ∷ d ∷ digits) = (c == 48) && (d == 120) && (length digits == n) && all_hex digits
matches_hex n _ = false

unfoldable pub normalize_address : Bytes → Result Bytes
normalize_address address =
    let normalized = lower (strip address) in
    if matches_hex 40 normalized then ok normalized else raise deposit_error

pub record DepositEvent : Type 0 where
  pub tx_hash : Bytes
  pub sender : Bytes
  pub amount_micro : ℕ
  pub confirmations : ℕ

-- The two sign checks that end `__post_init__`.
unfoldable pub signed_event : Bytes → Bytes → ℤ → ℤ → Result DepositEvent
signed_event tx sender (negsuc n) c = raise deposit_error
signed_event tx sender (pos a) (negsuc n) = raise deposit_error
signed_event tx sender (pos a) (pos c) =
    ok (record { tx_hash = tx; sender = sender; amount_micro = a; confirmations = c })

unfoldable pub make_event : Bytes → Bytes → ℤ → ℤ → Result DepositEvent
make_event tx_hash sender amount_micro confirmations =
    let tx = lower (strip tx_hash) in
    if matches_hex 64 tx
    then (normalize_address sender >>= (λ s. signed_event tx s amount_micro confirmations))
    else raise deposit_error

pub record CreditedDeposit : Type 0 where
  pub tx_hash : Bytes
  pub customer_id : Bytes
  pub amount_micro : ℕ
  pub balance_after_micro : ℕ

-- `_credited_tx` is a set: a dict whose values say nothing.
pub data Present : Type 0 where
  present : Present

pub record DepositWatcher : Type 0 where
  pub ledger : Ledger
  pub min_confirmations : ℕ
  pub bindings : Dict Bytes
  pub credited_tx : Dict Present
  pub unattributed : Dict DepositEvent

unfoldable pub make_watcher : Ledger → ℤ → Result DepositWatcher
make_watcher ledger (negsuc n) = raise deposit_error
make_watcher ledger (pos min_confirmations) = ok (record {
  ledger = ledger;
  min_confirmations = min_confirmations;
  bindings = [];
  credited_tx = [];
  unattributed = [];
})

abbrev pub bound_elsewhere : Option Bytes → Bytes → Bool
bound_elsewhere none customer_id = false
bound_elsewhere (some existing) customer_id = if bytes_eq existing customer_id then false else true

unfoldable pub bind_address : DepositWatcher → Bytes → Bytes → Result DepositWatcher
bind_address w address customer_id =
    if is_empty customer_id
    then raise deposit_error
    else (normalize_address address >>= (λ normalized.
        if bound_elsewhere (lookup normalized w.bindings) customer_id
        then raise deposit_error
        else ok (record w { bindings = insert normalized customer_id w.bindings })))

unfoldable pub unbind_address : DepositWatcher → Bytes → Result DepositWatcher
unbind_address w address =
    normalize_address address
    >>= (λ normalized. ok (record w { bindings = remove normalized w.bindings }))

unfoldable pub customer_for : DepositWatcher → Bytes → Result (Option Bytes)
customer_for w address =
    normalize_address address >>= (λ normalized. ok (lookup normalized w.bindings))

abbrev pub is_some {ℓ} : {A : Type ℓ} → Option A → Bool
is_some none = false
is_some (some a) = true

-- The watcher once the ledger took a deposit, with the credit.
unfoldable pub record_credit :
    DepositWatcher → DepositEvent → Bytes → Ledger × ℕ → DepositWatcher × List CreditedDeposit
record_credit w event customer_id (ledger, balance) = (
  record w {
    ledger = ledger;
    credited_tx = insert event.tx_hash present w.credited_tx;
    unattributed = remove event.tx_hash w.unattributed;
  },
  record {
    tx_hash = event.tx_hash;
    customer_id = customer_id;
    amount_micro = event.amount_micro;
    balance_after_micro = balance;
  }
      ∷ [],
)

unfoldable pub attribute :
    DepositWatcher → DepositEvent → Option Bytes → Result (DepositWatcher × List CreditedDeposit)
attribute w event none =
    ok (record w { unattributed = insert event.tx_hash event w.unattributed }, [])
attribute w event (some customer_id) =
    customer_deposit w.ledger customer_id (pos event.amount_micro)
    >>= (λ p. ok (record_credit w event customer_id p))

-- The body of the loop of `process`.
unfoldable pub process_event :
    DepositWatcher → DepositEvent → Result (DepositWatcher × List CreditedDeposit)
process_event w event =
    if is_some (lookup event.tx_hash w.credited_tx)
    then ok (w, [])
    else if ltb event.confirmations w.min_confirmations
    then ok (w, [])
    else attribute w event (lookup event.sender w.bindings)

abbrev pub add_credits :
    List CreditedDeposit
    → DepositWatcher × Result (List CreditedDeposit)
    → DepositWatcher × Result (List CreditedDeposit)
add_credits cs (w, r) = (w, r >>= (λ rest. ok (cs ++ rest)))

-- After one event: an exception leaves the watcher as the events before it left it.
abbrev pub proceed :
    DepositWatcher
    → Result (DepositWatcher × List CreditedDeposit)
    → (DepositWatcher → DepositWatcher × Result (List CreditedDeposit))
    → DepositWatcher × Result (List CreditedDeposit)
proceed w (ok (w', cs)) rest = add_credits cs (rest w')
proceed w (raise e) rest = (w, raise e)

unfoldable pub process :
    DepositWatcher → List DepositEvent → DepositWatcher × Result (List CreditedDeposit)
process w [] = (w, ok [])
process w (event ∷ events) = proceed w (process_event w event) (λ w'. process w' events)

unfoldable pub poll_once :
    DepositWatcher → (Unit {0} → List DepositEvent) → DepositWatcher × Result (List CreditedDeposit)
poll_once w source = process w (source tt)

abbrev pub credited_count : DepositWatcher → ℕ
credited_count w = length w.credited_tx

abbrev pub is_credited : DepositWatcher → Bytes → Bool
unfolding strip lower
is_credited w tx_hash = is_some (lookup (lower (strip tx_hash)) w.credited_tx)
