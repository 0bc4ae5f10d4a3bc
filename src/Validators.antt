-- ===== src/Validators.antt =====
-- The class `ValidatorSet` (src/ltp/consensus/validator_set.py): the validators of an epoch, their
-- indices, the quorum and the evictions. A set is a list without repetition; a dict with numbers as
-- keys is a list of pairs.
pub mod Evictions
pub mod Quorums
use suwappu_lattice_protocol.Prelude.{
  ℕ, zero, suc, ◌+◌, ◌-◌, ◌*◌, ◌/◌, Bool, true, false, not, ◌&&◌, ◌||◌, Option, none, some, List,
  [], ◌∷◌, length, ◌==◌, if◌then◌else◌, Bytes, bytes_eq, Result, ok, raise, key_error, ◌>>=◌,
}
use suwappu_lattice_protocol.Dict.{Dict, lookup, insert}

pub record ValidatorInfo : Type 0 where
  pub writer_fp : Bytes
  pub bls_pk : Bytes
  pub validator_index : ℕ

pub record ValidatorSet : Type 0 where
  pub epoch : ℕ
  pub members : List ValidatorInfo
  pub quorum_threshold : ℕ
  pub evicted : List Bytes
  pub fp_to_index : Dict ℕ
  pub index_to_fp : List (ℕ × Bytes)
  pub index_to_bls : List (ℕ × Bytes)

unfoldable pub find : ℕ → List (ℕ × Bytes) → Option Bytes
find i [] = none
find i ((j, b) ∷ t) = let rest = find i t in if j == i then some b else rest

unfoldable pub put : ℕ → Bytes → List (ℕ × Bytes) → List (ℕ × Bytes)
put i b [] = (i, b) ∷ []
put i b ((j, c) ∷ t) = let rest = put i b t in if j == i then (j, b) ∷ t else (j, c) ∷ rest

unfoldable pub indices_by_fp : List ValidatorInfo → Dict ℕ → Dict ℕ
indices_by_fp [] d = d
indices_by_fp (m ∷ ms) d = indices_by_fp ms (insert m.writer_fp m.validator_index d)

unfoldable pub put_all :
    (ValidatorInfo → Bytes) → List ValidatorInfo → List (ℕ × Bytes) → List (ℕ × Bytes)
put_all f [] t = t
put_all f (m ∷ ms) t = put_all f ms (put m.validator_index (f m) t)

-- `2 * f + 1` with `f = (n - 1) // 3`; it is 1 for no members too.
unfoldable pub quorum : ℕ → ℕ
quorum n = 2 * ((n - 1) / 3) + 1

unfoldable pub make_validator_set : ℕ → List ValidatorInfo → ValidatorSet
make_validator_set epoch members = record {
  epoch = epoch;
  members = members;
  quorum_threshold = quorum (length members);
  evicted = [];
  fp_to_index = indices_by_fp members [];
  index_to_fp = put_all (λ m. m.writer_fp) members [];
  index_to_bls = put_all (λ m. m.bls_pk) members [];
}

-- The active members of a roster, each with its fingerprint and key, from an index on.
unfoldable pub enumerate : ℕ → List (Bytes × Bytes) → List ValidatorInfo
enumerate i [] = []
enumerate i ((fp, pk) ∷ ms) =
    record { writer_fp = fp; bls_pk = pk; validator_index = i } ∷ enumerate (suc i) ms

unfoldable pub from_roster : ℕ → List (Bytes × Bytes) → ValidatorSet
from_roster epoch active_members = make_validator_set epoch (enumerate 0 active_members)

abbrev pub size : ValidatorSet → ℕ
size v = length v.members

unfoldable pub or_key_error {ℓ} : {A : Type ℓ} → Option A → Result A
or_key_error none = raise key_error
or_key_error (some a) = ok a

unfoldable pub index_for : ValidatorSet → Bytes → Result ℕ
index_for v writer_fp = or_key_error (lookup writer_fp v.fp_to_index)

unfoldable pub fp_for : ValidatorSet → ℕ → Result Bytes
fp_for v index = or_key_error (find index v.index_to_fp)

unfoldable pub bls_pk_for : ValidatorSet → ℕ → Result Bytes
bls_pk_for v index = or_key_error (find index v.index_to_bls)

unfoldable pub contains : Bytes → List Bytes → Bool
contains x [] = false
contains x (y ∷ ys) = bytes_eq y x || contains x ys

unfoldable pub is_key : Option ℕ → Bool
is_key none = false
is_key (some i) = true

unfoldable pub evict : ValidatorSet → Bytes → Result ValidatorSet
evict v writer_fp =
    if not (is_key (lookup writer_fp v.fp_to_index))
    then raise key_error
    else if contains writer_fp v.evicted
    then ok v
    else ok (record v { evicted = writer_fp ∷ v.evicted })

unfoldable pub is_active : ValidatorSet → Bytes → Bool
is_active v writer_fp =
    is_key (lookup writer_fp v.fp_to_index) && not (contains writer_fp v.evicted)

unfoldable pub is_evicted : ValidatorSet → Bytes → Bool
is_evicted v writer_fp = contains writer_fp v.evicted

-- An evicted fingerprint is a member's, so the difference is not negative.
unfoldable pub active_count : ValidatorSet → ℕ
active_count v = length v.members - length v.evicted

unfoldable pub indices_of : Dict ℕ → List Bytes → Result (List ℕ)
indices_of d [] = ok []
indices_of d (fp ∷ fps) = or_key_error (lookup fp d) >>= λ i. indices_of d fps >>= λ is. ok (i ∷ is)

unfoldable pub evicted_indices : ValidatorSet → Result (List ℕ)
evicted_indices v = indices_of v.fp_to_index v.evicted
