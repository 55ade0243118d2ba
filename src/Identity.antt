-- ===== src/Identity.antt =====
-- lanfence/identity.py: the identity of a device, by weighted rules.
pub mod Confidence
pub mod Votes
use Prim.Native.Nat.{compare, max}
use Prim.Native.Char.{code}
use lan_fence.Base.{
  Bool, List, Option, String, Table, [], any, elem, false, filter, if◌then◌else◌, lookup, ltb, map,
  none, none_or, not, opt_str_eq, or_else, or_empty, some, some_and, suc, true, truthy, upsert,
  zero, ℕ, ◌&&◌, ◌+◌, ◌==◌, ◌||◌, ◌∷◌,
}
use lan_fence.Models.Signed.{negsuc, pos, ℤ, ◌+ℤ◌}
use lan_fence.Risk.{clamp}
use lan_fence.Text.{contains_text, lower, strip, ◌+++◌}

pub record EvidenceItem : Type 0 where
  pub label : String
  pub weight : ℤ

pub record DeviceIdentity : Type 0 where
  pub category : String
  pub manufacturer : Option String
  pub family : Option String
  pub platform : Option String
  pub confidence : ℕ
  pub evidence : List EvidenceItem

-- `DeviceIdentity()`
abbrev pub unknown_identity : DeviceIdentity
unknown_identity = record {
  category = "Unknown";
  manufacturer = none;
  family = none;
  platform = none;
  confidence = 0;
  evidence = [];
}

abbrev pub is_known : DeviceIdentity → Bool
is_known i = ltb 0 i.confidence

-- UNCERTAIN_BELOW_CONFIDENCE
unfoldable pub is_uncertain : DeviceIdentity → Bool
is_uncertain i = is_known i && ltb i.confidence 50

-- `value.split()[0]` of a text that is not blank
until_space : String → String
until_space String.[] = ""
until_space (String.◌∷◌ c s) =
    let rest = until_space s in if code c == 32 then "" else String.◌∷◌ c rest

starts_with : String → String → Bool
starts_with s String.[] = true
starts_with String.[] (String.◌∷◌ c p) = false
starts_with (String.◌∷◌ d s) (String.◌∷◌ c p) = code d == code c && starts_with s p

-- `casefold` is `lower` on the ASCII letters
unfoldable pub probable_identity : DeviceIdentity → String
unfolding until_space starts_with
probable_identity i =
    if truthy i.manufacturer && truthy i.family
    then (if starts_with (lower (or_empty i.family))
          (lower (until_space (strip (or_empty i.manufacturer))))
        then or_empty i.family
        else or_empty i.manufacturer +++ " " +++ or_empty i.family)
    else if truthy i.manufacturer
    then or_empty i.manufacturer
    else if truthy i.family
    then or_empty i.family
    else i.category

-- What is considered for one device. The lowered texts of the properties are taken by `matches`.
pub record IdentityEvidence : Type 0 where
  pub vendor : Option String
  pub hostname : Option String
  pub locally_administered : Bool
  pub fingerprint_categories : List String
  pub service_types : List String
  pub service_labels : List String
  pub txt_values : List String
  pub ssdp_servers : List String
  pub open_ports : List ℕ

-- `hostname_regex` stands for the search by a compiled pattern of Python's `re`
pub record IdentityCondition : Type 0 where
  pub vendor_contains : List String
  pub hostname_regex : Option (String → Bool)
  pub locally_administered : Option Bool
  pub fingerprint_category : List String
  pub service_type_contains : List String
  pub service_label : List String
  pub txt_contains : List String
  pub ssdp_server_contains : List String
  pub open_port_in : List ℕ

abbrev pub is_empty {ℓ} : {A : Type ℓ} → List A → Bool
is_empty [] = true
is_empty (x ∷ xs) = false

-- some of the texts, in lower case, holds some of the keywords
abbrev holds_any : List String → List String → Bool
holds_any keywords texts = any (λ t. any (contains_text (lower t)) keywords) texts

abbrev same_truth : Bool → Bool → Bool
same_truth true b = b
same_truth false b = not b

-- `_IdentityCondition.matches`
unfoldable pub meets : IdentityCondition → IdentityEvidence → Bool
meets c e =
    (is_empty c.vendor_contains
      || any (contains_text (lower (or_empty e.vendor))) c.vendor_contains)
    && none_or c.hostname_regex (λ found. found (lower (or_empty e.hostname)))
    && none_or c.locally_administered (same_truth e.locally_administered)
    && (is_empty c.fingerprint_category
        || any (λ k. elem k e.fingerprint_categories) c.fingerprint_category)
    && (is_empty c.service_type_contains || holds_any c.service_type_contains e.service_types)
    && (is_empty c.service_label || holds_any c.service_label e.service_labels)
    && (is_empty c.txt_contains || holds_any c.txt_contains e.txt_values)
    && (is_empty c.ssdp_server_contains || holds_any c.ssdp_server_contains e.ssdp_servers)
    && (is_empty c.open_port_in || any (λ p. any (λ q. p == q) e.open_ports) c.open_port_in)

-- _IDENTITY_FIELDS
pub data IdentityField : Type 0 where
  maker_field category_field family_field platform_field : IdentityField

-- `asserts` is the dictionary, whose keys are fields
pub record IdentityRule : Type 0 where
  pub id : String
  pub weight : ℕ
  pub condition : IdentityCondition
  pub asserts : IdentityField → Option String
  pub label : String

-- `matched`
unfoldable pub matched_rules : IdentityEvidence → List IdentityRule → List IdentityRule
matched_rules e rules = filter (λ (r : IdentityRule). meets r.condition e) rules

-- `field_totals[field][value] = ....get(value, 0) + rule.weight`
abbrev pub add_vote : Option String → ℕ → Table ℕ → Table ℕ
add_vote none weight totals = totals
add_vote (some value) weight totals = upsert value (or_else (lookup value totals) 0 + weight) totals

unfoldable pub field_totals : IdentityField → List IdentityRule → Table ℕ → Table ℕ
field_totals f [] totals = totals
field_totals f (r ∷ rs) totals = field_totals f rs (add_vote (r.asserts f) r.weight totals)

-- `max(totals.values())`
abbrev pub best_weight : Table ℕ → ℕ
best_weight [] = 0
best_weight ((k, n) ∷ t) = max n (best_weight t)

-- the value that the earliest rule asserts among those with the best total
abbrev first_best : IdentityField → Table ℕ → List IdentityRule → Option String
first_best f totals [] = none
first_best f totals (r ∷ rs) =
    let rest = first_best f totals rs in
    if some_and (r.asserts f) (λ v. some_and (lookup v totals) (λ n. n == best_weight totals))
    then r.asserts f
    else rest

unfoldable pub winner : IdentityField → List IdentityRule → Option String
unfolding field_totals
winner f matched = first_best f (field_totals f matched []) matched

-- the rule asserts a value that lost
abbrev pub has_lost : (IdentityField → Option String) → IdentityRule → IdentityField → Bool
has_lost winners r f = some_and (r.asserts f) (λ v. not (opt_str_eq (winners f) (some v)))

abbrev pub conflicts : (IdentityField → Option String) → IdentityRule → Bool
conflicts winners r =
    has_lost winners r maker_field
    || has_lost winners r category_field
    || has_lost winners r family_field
    || has_lost winners r platform_field

abbrev pub signed_weight : Bool → ℕ → ℤ
signed_weight true zero = pos 0
signed_weight true (suc n) = negsuc n
signed_weight false n = pos n

abbrev pub evidence_item : (IdentityField → Option String) → IdentityRule → EvidenceItem
evidence_item winners r =
    let conflicting = conflicts winners r in
    record {
      label =
          if conflicting
          then r.label +++ " (conflicts with the stronger evidence above)"
          else r.label;
      weight = signed_weight conflicting r.weight;
    }

abbrev pub confidence_sum : List EvidenceItem → ℤ
confidence_sum [] = pos 0
confidence_sum (i ∷ is) = i.weight +ℤ confidence_sum is

abbrev less : ℤ → ℤ → Bool
less (pos m) (pos n) = ltb m n
less (pos m) (negsuc n) = false
less (negsuc m) (pos n) = true
less (negsuc m) (negsuc n) = ltb n m

-- `sort(key=weight, reverse=True)`, which is stable
insert_item : EvidenceItem → List EvidenceItem → List EvidenceItem
insert_item i [] = i ∷ []
insert_item i (j ∷ js) =
    let rest = insert_item i js in if less i.weight j.weight then j ∷ rest else i ∷ j ∷ js

unfoldable pub by_weight : List EvidenceItem → List EvidenceItem
unfolding insert_item
by_weight [] = []
by_weight (i ∷ is) = insert_item i (by_weight is)

unfoldable pub judged : List IdentityRule → DeviceIdentity
judged matched =
    let winners : IdentityField → Option String = λ f. winner f matched in
    let items = map (evidence_item winners) matched in
    record {
      category = or_else (winners category_field) "Unknown";
      manufacturer = winners maker_field;
      family = winners family_field;
      platform = winners platform_field;
      confidence = clamp (confidence_sum items);
      evidence = by_weight items;
    }

abbrev of_matched : List IdentityRule → DeviceIdentity
of_matched [] = unknown_identity
of_matched (r ∷ rs) = judged (r ∷ rs)

unfoldable pub infer_identity : IdentityEvidence → List IdentityRule → DeviceIdentity
infer_identity e rules = of_matched (matched_rules e rules)
