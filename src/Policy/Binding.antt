-- ===== src/Policy/Binding.antt =====
-- What the bytes of a policy (src/ltp/governance.py) say about whom it authorizes.
use suwappu_lattice_protocol.Prelude.{
  ℕ, ◌≡◌, refl, ap, ◌∙◌, sym, Bool, false, ◌&&◌, ◌||◌, Option, none, some, List, [], ◌∷◌, ◌++◌, map,
  ltb, leb, if◌then◌else◌, Bytes, bytes_eq, bytes_eq→eq, Bool-cases, Result, ok, ok-inj, bind-eq_ok,
  inl, inr, arith,
}
use suwappu_lattice_protocol.Encoding.{uint32, both, string, counted, finalize}
use suwappu_lattice_protocol.Encoding.Codes.{
  IsCode, uint32-IsCode, uint64-IsCode, length_prefixed_bytes-IsCode,
}
use suwappu_lattice_protocol.Encoding.Parts.{
  both-IsCode, counted-IsCode, optional-IsCode, counted-map,
}
use suwappu_lattice_protocol.Merkle.Collision.{append_inj_left}
use suwappu_lattice_protocol.Policy.{
  SignerEntry, ApprovalRule, SignerPolicy, in_set, place, sorted, domain_signer_policy,
  SignerFields, signer_fields, encode_signer, RuleFields, rule_fields, encode_rule, canonical_bytes,
  find_signer, find_rule, overlap, rule_allows, entry_allows, is_signer_authorized,
}

in_set-place :
    (r q : Bytes) (xs : List Bytes) → in_set r (place q xs) ≡ (bytes_eq q r || in_set r xs)
unfolding in_set place
in_set-place r q [] = refl
in_set-place r q (x ∷ xs) = elim (Bool-cases (bytes_eq x q)) [
  | inl t ↦ let e : x ≡ q = bytes_eq→eq x q t in ground (arith, e, t)
  | inr t ↦ ground (arith, t, in_set-place r q xs)
]

in_set-sorted : (r : Bytes) (xs : List Bytes) → in_set r (sorted xs) ≡ in_set r xs
unfolding in_set sorted
in_set-sorted r [] = refl
in_set-sorted r (x ∷ xs) =
    in_set-place r x (sorted xs) ∙ ap (λ b. bytes_eq x r || b) (in_set-sorted r xs)

overlap-place :
    (q : Bytes) (xs ys : List Bytes) → overlap (place q xs) ys ≡ (in_set q ys || overlap xs ys)
unfolding overlap place
overlap-place q [] ys = refl
overlap-place q (x ∷ xs) ys = elim (Bool-cases (bytes_eq x q)) [
  | inl t ↦ let e : x ≡ q = bytes_eq→eq x q t in ground (arith, e, t)
  | inr t ↦ ground (arith, t, overlap-place q xs ys)
]

overlap-sorted : (xs ys : List Bytes) → overlap (sorted xs) (sorted ys) ≡ overlap xs ys
unfolding overlap sorted
overlap-sorted [] ys = refl
overlap-sorted (x ∷ xs) ys =
    overlap-place x (sorted xs) (sorted ys) ∙ rw (in_set-sorted x ys, overlap-sorted xs ys) refl

-- The decision on what is encoded.
field_signer : Bytes → List SignerFields → Option SignerFields
field_signer vk [] = none
field_signer vk (s ∷ ss) =
    let rest = field_signer vk ss in if bytes_eq s.1.0 vk then some s else rest

field_rule : Bytes → List RuleFields → Option RuleFields
field_rule action [] = none
field_rule action (r ∷ rs) =
    let rest = field_rule action rs in if bytes_eq r.0 action then some r else rest

rule_decides : SignerFields → Option RuleFields → Bool
rule_decides s none = false
rule_decides (i, (k, (roles, times))) (some (a, (required, limits))) = overlap roles required

fields_decide : Option SignerFields → Option RuleFields → ℕ → Bool
fields_decide none rule epoch = false
fields_decide (some s) rule epoch =
    if leb s.1.1.1.0 epoch && ltb epoch s.1.1.1.1.0 then rule_decides s rule else false

entry_fields : Option SignerEntry → Option SignerFields
entry_fields none = none
entry_fields (some s) = some (signer_fields s)

option_rule : Option ApprovalRule → Option RuleFields
option_rule none = none
option_rule (some r) = some (rule_fields r)

found_signer :
    (vk : Bytes) (ss : List SignerEntry)
    → entry_fields (find_signer vk ss) ≡ field_signer vk (map signer_fields ss)
unfolding find_signer field_signer entry_fields
found_signer vk [] = refl
found_signer vk (s ∷ ss) = elim (Bool-cases (bytes_eq s.vk vk)) [
  | inl t ↦ rw t refl
  | inr t ↦ rw t (found_signer vk ss)
]

found_rule :
    (action : Bytes) (rs : List ApprovalRule)
    → option_rule (find_rule action rs) ≡ field_rule action (map rule_fields rs)
unfolding find_rule field_rule option_rule
found_rule action [] = refl
found_rule action (r ∷ rs) = elim (Bool-cases (bytes_eq r.action_type action)) [
  | inl t ↦ rw t refl
  | inr t ↦ rw t (found_rule action rs)
]

decides_rule :
    (s : SignerEntry) (r : Option ApprovalRule)
    → rule_allows s r ≡ rule_decides (signer_fields s) (option_rule r)
unfolding rule_allows rule_decides option_rule
decides_rule s none = refl
decides_rule s (some r) = sym (overlap-sorted s.roles r.required_roles)

decides :
    (s : Option SignerEntry) (r : Option ApprovalRule) (epoch : ℕ)
    → entry_allows s r epoch ≡ fields_decide (entry_fields s) (option_rule r) epoch
unfolding entry_allows entry_fields fields_decide
decides none r epoch = refl
decides (some s) r epoch = rw (decides_rule s r) refl

decided :
    (p : SignerPolicy) (vk action : Bytes) (epoch : ℕ)
    → is_signer_authorized p vk action epoch
      ≡ fields_decide
          (field_signer vk (map signer_fields p.signers))
          (field_rule action (map rule_fields p.approval_rules))
          epoch
unfolding is_signer_authorized
decided p vk action epoch =
    decides (find_signer vk p.signers) (find_rule action p.approval_rules) epoch
    ∙ rw (found_signer vk p.signers, found_rule action p.approval_rules) refl

strings-IsCode : IsCode (counted string)
strings-IsCode = counted-IsCode string length_prefixed_bytes-IsCode

encode_signer-IsCode : IsCode encode_signer
encode_signer-IsCode = both-IsCode _ _ length_prefixed_bytes-IsCode (
    both-IsCode _ _ length_prefixed_bytes-IsCode (
      both-IsCode _ _ strings-IsCode (
        both-IsCode _ _ uint64-IsCode
          (both-IsCode _ _ uint64-IsCode (optional-IsCode _ length_prefixed_bytes-IsCode)))))

encode_rule-IsCode : IsCode encode_rule
encode_rule-IsCode =
    both-IsCode _ _ length_prefixed_bytes-IsCode
      (both-IsCode _ _ strings-IsCode (both-IsCode _ _ uint32-IsCode uint32-IsCode))

-- The parts of a policy.
abbrev PolicyFields : Type 0
PolicyFields = ℕ × (List SignerFields × List RuleFields)

abbrev encode_policy : PolicyFields → Result Bytes
encode_policy = both uint32 (both (counted encode_signer) (counted encode_rule))

encode_policy-IsCode : IsCode encode_policy
encode_policy-IsCode =
    both-IsCode _ _ uint32-IsCode (
      both-IsCode _ _ (counted-IsCode _ encode_signer-IsCode) (counted-IsCode _ encode_rule-IsCode))

policy_fields : SignerPolicy → PolicyFields
policy_fields p =
    (p.policy_version, (map signer_fields p.signers, map rule_fields p.approval_rules))

parts_of :
    (p : SignerPolicy)
    → both uint32
        (both
          (counted (λ s. encode_signer (signer_fields s)))
          (counted (λ r. encode_rule (rule_fields r))))
        (p.policy_version, (p.signers, p.approval_rules))
      ≡ encode_policy (policy_fields p)
unfolding both policy_fields
parts_of p =
    rw
      (
        counted-map encode_signer signer_fields p.signers,
        counted-map encode_rule rule_fields p.approval_rules,
      )
      refl

canonical_bytes-eq_ok :
    (p : SignerPolicy) (b : Bytes)
    → canonical_bytes p ≡ ok b
    → (q : Bytes) × (encode_policy (policy_fields p) ≡ ok q) × (b ≡ domain_signer_policy ++ q)
unfolding canonical_bytes finalize
canonical_bytes-eq_ok p b e =
    let (q, pq, qb) = bind-eq_ok _ (λ q. ok (domain_signer_policy ++ q)) e in
    (q, sym (parts_of p) ∙ pq, sym (ok-inj qb))

same_fields :
    (p q : SignerPolicy) (b : Bytes)
    → canonical_bytes p ≡ ok b
    → canonical_bytes q ≡ ok b
    → policy_fields p ≡ policy_fields q
same_fields p q b hp hq =
    let (c, pc, bc) = canonical_bytes-eq_ok p b hp in
    let (d, qd, bd) = canonical_bytes-eq_ok q b hq in
    let (tag, same) =
      append_inj_left domain_signer_policy c domain_signer_policy d (sym bc ∙ bd) refl in
    let (fields, rest) =
      encode_policy-IsCode.front (policy_fields p) (policy_fields q) c d [] [] pc qd
        (ap (λ z. z ++ []) same) in
    fields

-- Two policies with the same canonical bytes have the same version and authorize the same keys for
-- the same actions at the same epochs.
pub canonical_bytes-is_signer_authorized :
    (p q : SignerPolicy) (b : Bytes)
    → canonical_bytes p ≡ ok b
    → canonical_bytes q ≡ ok b
    → (p.policy_version ≡ q.policy_version)
      × ((vk action : Bytes) (epoch : ℕ)
          → is_signer_authorized p vk action epoch ≡ is_signer_authorized q vk action epoch)
unfolding policy_fields
canonical_bytes-is_signer_authorized p q b hp hq =
    let same = same_fields p q b hp hq in
    (
      ap (λ f. f.0) same,
      λ vk action epoch.
          decided p vk action epoch
          ∙ ap (λ f. fields_decide (field_signer vk f.1.0) (field_rule action f.1.1) epoch) same
          ∙ sym (decided q vk action epoch),
    )
