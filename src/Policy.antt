-- ===== src/Policy.antt =====
-- `SignerPolicy` (src/ltp/governance.py): who may sign which action, and the bytes that the policy's
-- authority signs. A set of strings is a list of its members, in any order and with any repetitions;
-- `sorted` orders it by the bytes of the strings' UTF-8 text, the order of their code points.
pub mod Binding
use suwappu_lattice_protocol.Prelude.{
  ℕ, ◌+◌, Bool, true, false, ◌&&◌, ◌||◌, Option, none, some, List, [], ◌∷◌, ltb, leb, if◌then◌else◌,
  Bytes, bytes_eq, Result,
}
use suwappu_lattice_protocol.Encoding.{
  uint32, uint64, both, length_prefixed_bytes, string, optional_bytes, counted, finalize,
}

pub record SignerEntry : Type 0 where
  pub signer_id : Bytes
  pub vk : Bytes
  pub roles : List Bytes
  pub valid_from : ℕ
  pub valid_until : ℕ
  pub predecessor_vk : Option Bytes

pub record ApprovalRule : Type 0 where
  pub action_type : Bytes
  pub required_roles : List Bytes
  pub min_signers : ℕ
  pub max_age_seconds : ℕ

pub record SignerPolicy : Type 0 where
  pub policy_id : Bytes
  pub policy_version : ℕ
  pub signers : List SignerEntry
  pub approval_rules : List ApprovalRule
  pub policy_signature : Bytes

-- The order of two strings.
unfoldable pub str_leb : Bytes → Bytes → Bool
str_leb [] b = true
str_leb (x ∷ a) [] = false
str_leb (x ∷ a) (y ∷ b) = ltb x y || (leb x y && str_leb a b)

unfoldable pub in_set : Bytes → List Bytes → Bool
in_set r [] = false
in_set r (x ∷ xs) = bytes_eq x r || in_set r xs

-- A member at its place, once.
unfoldable pub place : Bytes → List Bytes → List Bytes
place r [] = r ∷ []
place r (x ∷ xs) =
    let rest = place r xs in
    if bytes_eq x r then x ∷ xs else if str_leb r x then r ∷ x ∷ xs else x ∷ rest

unfoldable pub sorted : List Bytes → List Bytes
sorted [] = []
sorted (r ∷ rs) = place r (sorted rs)

-- b"SUWAPPU-LTP:signer-policy:v1\x00"
abbrev pub domain_signer_policy : Bytes
domain_signer_policy =
    83 ∷ 85 ∷ 87 ∷ 65 ∷ 80 ∷ 80 ∷ 85 ∷ 45 ∷ 76 ∷ 84 ∷ 80 ∷ 58 ∷ 115 ∷ 105 ∷ 103 ∷ 110 ∷ 101 ∷ 114
    ∷ 45 ∷ 112 ∷ 111 ∷ 108 ∷ 105 ∷ 99 ∷ 121 ∷ 58 ∷ 118 ∷ 49 ∷ 0 ∷ []

abbrev pub SignerFields : Type 0
SignerFields = Bytes × (Bytes × (List Bytes × (ℕ × (ℕ × Option Bytes))))

-- What the loop over the signers encodes of one of them, in order.
abbrev pub signer_fields : SignerEntry → SignerFields
signer_fields s =
    (s.signer_id, (s.vk, (sorted s.roles, (s.valid_from, (s.valid_until, s.predecessor_vk)))))

abbrev pub encode_signer : SignerFields → Result Bytes
encode_signer =
    both string (
      both length_prefixed_bytes (both (counted string) (both uint64 (both uint64 optional_bytes))))

abbrev pub RuleFields : Type 0
RuleFields = Bytes × (List Bytes × (ℕ × ℕ))

abbrev pub rule_fields : ApprovalRule → RuleFields
rule_fields r = (r.action_type, (sorted r.required_roles, (r.min_signers, r.max_age_seconds)))

abbrev pub encode_rule : RuleFields → Result Bytes
encode_rule = both string (both (counted string) (both uint32 uint32))

unfoldable pub canonical_bytes : SignerPolicy → Result Bytes
canonical_bytes p = finalize domain_signer_policy (
    both uint32
      (both (counted (λ s. encode_signer (signer_fields s)))
        (counted (λ r. encode_rule (rule_fields r))))
      (p.policy_version, (p.signers, p.approval_rules)))

unfoldable pub find_signer : Bytes → List SignerEntry → Option SignerEntry
find_signer vk [] = none
find_signer vk (s ∷ ss) = let rest = find_signer vk ss in if bytes_eq s.vk vk then some s else rest

unfoldable pub find_rule : Bytes → List ApprovalRule → Option ApprovalRule
find_rule action [] = none
find_rule action (r ∷ rs) =
    let rest = find_rule action rs in if bytes_eq r.action_type action then some r else rest

-- `bool(xs & ys)`
unfoldable pub overlap : List Bytes → List Bytes → Bool
overlap [] ys = false
overlap (x ∷ xs) ys = in_set x ys || overlap xs ys

unfoldable pub rule_allows : SignerEntry → Option ApprovalRule → Bool
rule_allows entry none = false
rule_allows entry (some rule) = overlap entry.roles rule.required_roles

unfoldable pub entry_allows : Option SignerEntry → Option ApprovalRule → ℕ → Bool
entry_allows none rule epoch = false
entry_allows (some entry) rule epoch =
    if leb entry.valid_from epoch && ltb epoch entry.valid_until
    then rule_allows entry rule
    else false

unfoldable pub is_signer_authorized : SignerPolicy → Bytes → Bytes → ℕ → Bool
is_signer_authorized p vk action epoch =
    entry_allows (find_signer vk p.signers) (find_rule action p.approval_rules) epoch
