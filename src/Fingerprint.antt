-- ===== src/Fingerprint.antt =====
-- lanfence/fingerprint.py: the rogue-device signatures that a device matches.
use lan_fence.Base.{
  List, Option, String, [], filter, if◌then◌else◌, is_none, map, none, some, str_eq, ◌&&◌, ◌++◌,
  ◌∷◌,
}
use lan_fence.Models.Severity.{Severity, info}
use lan_fence.Netutil.{is_locally_administered}
use lan_fence.Text.{contains_text, lower, repr, ◌+++◌}

pub record SignatureMatch : Type 0 where
  pub category : String
  pub severity : Severity
  pub title : String
  pub description : String
  pub evidence : String

-- `_Keyword`: `pattern` is its field `match`
pub record Keyword : Type 0 where
  pub pattern : String
  pub category : String
  pub severity : Severity
  pub description : String

pub record SignatureSet : Type 0 where
  pub vendor_keywords : List Keyword
  pub hostname_keywords : List Keyword

-- the match of one keyword against a field of this name and value
abbrev pub keyword_match : String → String → String → Keyword → SignatureMatch
keyword_match title_name field_name value kw = record {
  category = kw.category;
  severity = kw.severity;
  title = title_name +++ " matches known signature: " +++ kw.category;
  description = kw.description;
  evidence = field_name +++ " = " +++ repr value +++ " (matched " +++ repr kw.pattern +++ ")";
}

-- one of the two loops of `match`; nothing if the field is `None` or empty
unfoldable pub match_field : String → String → Option String → List Keyword → List SignatureMatch
match_field title_name field_name none kws = []
match_field title_name field_name (some value) kws =
    if str_eq value ""
    then []
    else map (keyword_match title_name field_name value)
        (filter (λ (kw : Keyword). contains_text (lower value) kw.pattern) kws)

-- `SignatureSet.match`
unfoldable pub match_signatures : SignatureSet → Option String → Option String → List SignatureMatch
unfolding match_field
match_signatures sigs vendor hostname =
    match_field "Vendor" "vendor" vendor sigs.vendor_keywords
    ++ match_field "Hostname" "hostname" hostname sigs.hostname_keywords

abbrev locally_administered_match : String → SignatureMatch
locally_administered_match mac = record {
  category = "locally_administered_mac";
  severity = info;
  title = "Locally administered (randomized/spoofed) MAC address";
  description =
      "The vendor bit pattern indicates a locally administered address "
      +++ "rather than one assigned by a hardware vendor. Common causes: "
      +++ "MAC-randomization privacy features on modern phones/laptops, "
      +++ "virtual machines/containers, or a device deliberately spoofing " +++ "its address.";
  evidence = "mac = " +++ mac +++ " (U/L bit set, no vendor OUI match)";
}

-- `fingerprint_device`; `vendor_of` is `lookup_vendor` over the vendor tables
unfoldable pub fingerprint_device :
    (String → Option String)
    → SignatureSet
    → String
    → Option String
    → Option String × List SignatureMatch
unfolding match_signatures
fingerprint_device vendor_of sigs mac hostname =
    let vendor = vendor_of mac in
    let matches = match_signatures sigs vendor hostname in
    (
      vendor,
      if is_none vendor && is_locally_administered mac
          then matches ++ locally_administered_match mac ∷ []
          else matches,
    )
