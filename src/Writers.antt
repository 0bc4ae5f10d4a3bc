-- ===== src/Writers.antt =====
-- `WriterRegistry` and its records (src/ltp/execution/writer.py, writer_registry.py and
-- writer_config.py). A fingerprint is a byte string; a reason is kept where the record keeps it and
-- left out of the audit log, whose messages are text for people.
pub mod Audit
pub mod Calls
pub mod Revocation
use suwappu_lattice_protocol.Prelude.{
  ℕ, ◌+◌, Bool, true, false, Option, none, some, List, [], ◌∷◌, ◌++◌, length, leb, ltb, ◌&&◌,
  if◌then◌else◌, Bytes, bytes_eq, Result, ok, raise, key_error, value_error, ◌>>=◌,
}
use suwappu_lattice_protocol.Dict.{Dict, lookup, insert}

pub data IdentityTier : Type 0 where
  mldsa bls composite : IdentityTier

pub data WriterState : Type 0 where
  pending probation active suspended expired revoked : WriterState

pub data ApprovalPath : Type 0 where
  admin sponsored self_service : ApprovalPath

unfoldable pub is_transactable : WriterState → Bool
is_transactable active = true
is_transactable probation = true
is_transactable _ = false

-- `VALID_WRITER_TRANSITIONS`
unfoldable pub valid_writer_transition : WriterState → WriterState → Bool
valid_writer_transition pending probation = true
valid_writer_transition pending active = true
valid_writer_transition pending revoked = true
valid_writer_transition probation active = true
valid_writer_transition probation suspended = true
valid_writer_transition probation revoked = true
valid_writer_transition active suspended = true
valid_writer_transition active expired = true
valid_writer_transition active revoked = true
valid_writer_transition suspended active = true
valid_writer_transition suspended revoked = true
valid_writer_transition expired active = true
valid_writer_transition expired revoked = true
valid_writer_transition _ _ = false

unfoldable pub same_state : WriterState → WriterState → Bool
same_state pending pending = true
same_state probation probation = true
same_state active active = true
same_state suspended suspended = true
same_state expired expired = true
same_state revoked revoked = true
same_state _ _ = false

-- The first component of what `validate_writer_transition` returns.
unfoldable pub validate_writer_transition : WriterState → WriterState → Bool
validate_writer_transition current target =
    if same_state current target then false else valid_writer_transition current target

pub record TransitionEntry : Type 0 where
  pub timestamp : ℕ
  pub from_state : WriterState
  pub to_state : WriterState
  pub actor_fp : Bytes
  pub is_emergency : Bool

pub record WriterIdentity : Type 0 where
  pub tier : IdentityTier
  pub fingerprint : Bytes
  pub mldsa_vk : Option Bytes
  pub bls_pk : Option Bytes

-- `bls_pk` of a key pair, if it has one; both digests are the caller's.
unfoldable pub from_keypair :
    (Bytes → Bytes) → (Bytes → Bytes → Bytes) → Bytes → Option Bytes → WriterIdentity
from_keypair canonical_hash_bytes composite_fingerprint vk none = record {
  tier = mldsa;
  fingerprint = canonical_hash_bytes vk;
  mldsa_vk = some vk;
  bls_pk = none;
}
from_keypair canonical_hash_bytes composite_fingerprint vk (some pk) = record {
  tier = composite;
  fingerprint = composite_fingerprint vk pk;
  mldsa_vk = some vk;
  bls_pk = some pk;
}

pub record WriterRecord : Type 0 where
  pub identity : WriterIdentity
  pub state : WriterState
  pub approval_path : ApprovalPath
  pub enrolled_at : ℕ
  pub approved_at : Option ℕ
  pub approved_by : Option Bytes
  pub sponsors : List Bytes
  pub probation_until : Option ℕ
  pub expires_at : Option ℕ
  pub suspension_reason : Option Bytes
  pub transition_log : List TransitionEntry

abbrev pub can_transact : WriterRecord → Bool
can_transact r = is_transactable r.state

pub record RegistryConfig : Type 0 where
  pub sponsor_threshold : ℕ
  pub probation_epochs : ℕ

pub record WriterRegistry : Type 0 where
  pub config : RegistryConfig
  pub records : Dict WriterRecord
  pub revoked_fps : List Bytes

abbrev pub make_registry : RegistryConfig → WriterRegistry
make_registry config = record { config = config; records = []; revoked_fps = [] }

unfoldable pub has : Bytes → List Bytes → Bool
has fp [] = false
has fp (f ∷ fps) = if bytes_eq f fp then true else has fp fps

abbrev pub is_present : Option WriterRecord → Bool
is_present none = false
is_present (some r) = true

abbrev pub get_or_raise : Option WriterRecord → Result WriterRecord
get_or_raise none = raise key_error
get_or_raise (some r) = ok r

unfoldable pub find_writer : WriterRegistry → Bytes → Option WriterRecord
find_writer g fingerprint = lookup fingerprint g.records

unfoldable pub put : WriterRegistry → Bytes → WriterRecord → WriterRegistry
put g fingerprint r = record g { records = insert fingerprint r g.records }

unfoldable pub enroll : WriterRegistry → WriterIdentity → ℕ → Result (WriterRegistry × WriterRecord)
enroll g identity timestamp =
    let r : WriterRecord = record {
      identity = identity;
      state = pending;
      approval_path = sponsored;
      enrolled_at = timestamp;
      approved_at = none;
      approved_by = none;
      sponsors = [];
      probation_until = none;
      expires_at = none;
      suspension_reason = none;
      transition_log = [];
    } in
    if has identity.fingerprint g.revoked_fps
    then raise value_error
    else if is_present (find_writer g identity.fingerprint)
    then raise value_error
    else ok (put g identity.fingerprint r, r)

-- `_transition`, on the record that it looked up
unfoldable pub transition : WriterState → Bytes → ℕ → WriterRecord → Result WriterRecord
transition target actor_fp timestamp r =
    let entry : TransitionEntry = record {
      timestamp = timestamp;
      from_state = r.state;
      to_state = target;
      actor_fp = actor_fp;
      is_emergency = false;
    } in
    if validate_writer_transition r.state target
    then ok (record r { transition_log = r.transition_log ++ (entry ∷ []); state = target })
    else raise value_error

-- A change of the record object of a writer.
unfoldable pub update :
    WriterRegistry
    → Bytes
    → (WriterRecord → Result WriterRecord)
    → Result (WriterRegistry × WriterRecord)
update g fingerprint change =
    get_or_raise (find_writer g fingerprint) >>= change >>= (λ r. ok (put g fingerprint r, r))

unfoldable pub approved : Bytes → ℕ → WriterRecord → Result WriterRecord
approved admin_fp timestamp r =
    if same_state r.state pending
    then (transition active admin_fp timestamp r >>= (λ r'. ok (record r' {
      approved_at = some timestamp;
      approved_by = some admin_fp;
      approval_path = admin;
    })))
    else raise value_error

unfoldable pub approve : WriterRegistry → Bytes → Bytes → ℕ → Result (WriterRegistry × WriterRecord)
approve g fingerprint admin_fp timestamp = update g fingerprint (approved admin_fp timestamp)

abbrev pub may_sponsor : Option WriterRecord → Bool
may_sponsor none = false
may_sponsor (some r) = is_transactable r.state

-- The end of `sponsor`, on a record with the new sponsor.
unfoldable pub weigh : RegistryConfig → Bytes → ℕ → WriterRecord → Result WriterRecord
weigh c sponsor_fp timestamp r =
    if leb c.sponsor_threshold (length r.sponsors)
    then (transition probation sponsor_fp timestamp r >>= (λ r'. ok (record r' {
      probation_until = some (timestamp + c.probation_epochs);
      approval_path = sponsored;
    })))
    else ok r

unfoldable pub sponsored_by : WriterRegistry → Bytes → ℕ → WriterRecord → Result WriterRecord
sponsored_by g sponsor_fp timestamp r =
    if same_state r.state pending
    then if may_sponsor (find_writer g sponsor_fp)
      then if has sponsor_fp r.sponsors
        then ok r
        else weigh g.config sponsor_fp timestamp
            (record r { sponsors = r.sponsors ++ (sponsor_fp ∷ []) })
      else raise value_error
    else raise value_error

unfoldable pub sponsor : WriterRegistry → Bytes → Bytes → ℕ → Result (WriterRegistry × WriterRecord)
sponsor g fingerprint sponsor_fp timestamp =
    update g fingerprint (sponsored_by g sponsor_fp timestamp)

unfoldable pub promote : WriterRegistry → Bytes → ℕ → Result (WriterRegistry × WriterRecord)
promote g fingerprint timestamp =
    update g fingerprint (λ r. transition active r.identity.fingerprint timestamp r)

unfoldable pub suspend :
    WriterRegistry → Bytes → Bytes → Bytes → ℕ → Result (WriterRegistry × WriterRecord)
suspend g fingerprint reason actor_fp timestamp = update g fingerprint (λ r.
    transition suspended actor_fp timestamp r
    >>= (λ r'. ok (record r' { suspension_reason = some reason })))

unfoldable pub reinstate :
    WriterRegistry → Bytes → Bytes → ℕ → Result (WriterRegistry × WriterRecord)
reinstate g fingerprint actor_fp timestamp = update g fingerprint (λ r.
    transition active actor_fp timestamp r >>= (λ r'. ok (record r' { suspension_reason = none })))

unfoldable pub mark_revoked : Bytes → WriterRegistry × WriterRecord → WriterRegistry × WriterRecord
mark_revoked fingerprint (g, r) = (record g { revoked_fps = fingerprint ∷ g.revoked_fps }, r)

unfoldable pub revoke : WriterRegistry → Bytes → Bytes → ℕ → Result (WriterRegistry × WriterRecord)
revoke g fingerprint actor_fp timestamp =
    update g fingerprint (transition revoked actor_fp timestamp)
    >>= (λ p. ok (mark_revoked fingerprint p))

unfoldable pub renew : WriterRegistry → Bytes → Bytes → ℕ → Result (WriterRegistry × WriterRecord)
renew g fingerprint actor_fp timestamp = update g fingerprint (transition active actor_fp timestamp)

unfoldable pub is_due : ℕ → Option ℕ → Bool
is_due current_epoch none = false
is_due current_epoch (some e) = ltb 0 e && leb e current_epoch

unfoldable pub to_expire : ℕ → Dict WriterRecord → List Bytes
to_expire current_epoch [] = []
to_expire current_epoch ((fp, r) ∷ d) =
    if same_state r.state active && is_due current_epoch r.expires_at
    then fp ∷ to_expire current_epoch d
    else to_expire current_epoch d

-- After one transition: an exception ends the batch.
abbrev pub proceed :
    WriterRegistry
    → Result (WriterRegistry × WriterRecord)
    → (WriterRegistry → WriterRegistry × Result (Unit {0}))
    → WriterRegistry × Result (Unit {0})
proceed g (ok p) rest = rest p.0
proceed g (raise e) rest = (g, raise e)

unfoldable pub expire_all : WriterRegistry → ℕ → List Bytes → WriterRegistry × Result (Unit {0})
expire_all g current_epoch [] = (g, ok tt)
expire_all g current_epoch (fp ∷ fps) =
    proceed g (update g fp (transition expired fp current_epoch))
      (λ g'. expire_all g' current_epoch fps)

unfoldable pub check_expirations : WriterRegistry → ℕ → WriterRegistry × Result (List Bytes)
check_expirations g current_epoch =
    let fps = to_expire current_epoch g.records in
    let p = expire_all g current_epoch fps in (p.0, p.1 >>= (λ u. ok fps))

unfoldable pub active_writers : Dict WriterRecord → List WriterRecord
active_writers [] = []
active_writers ((fp, r) ∷ d) =
    if is_transactable r.state then r ∷ active_writers d else active_writers d
