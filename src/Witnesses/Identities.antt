-- ===== src/Witnesses/Identities.antt =====
-- Rules that identify a device, and that disagree.
use lan_fence.Base.{Option, String, [], lookup, none, refl, some, upsert, ℕ, ◌∷◌, ◌≡◌, ◌≤◌}
use lan_fence.Identity.{
  IdentityCondition, IdentityField, IdentityRule, field_totals, judged, winner,
}
use lan_fence.Identity.Confidence.{judged-contested}
use lan_fence.Identity.Votes.{votes_for, winner-best}

abbrev any_device : IdentityCondition
any_device = record {
  vendor_contains = [];
  hostname_regex = none;
  locally_administered = none;
  fingerprint_category = [];
  service_type_contains = [];
  service_label = [];
  txt_contains = [];
  ssdp_server_contains = [];
  open_port_in = [];
}

abbrev only_category : String → IdentityField → Option String
only_category s IdentityField.category_field = some s
only_category s _ = none

abbrev says : ℕ → String → IdentityRule
says n s = record {
  id = s;
  weight = n;
  condition = any_device;
  asserts = only_category s;
  label = s;
}

winner-best_example :
    votes_for IdentityField.category_field "Camera" (says 30 "Printer" ∷ says 20 "Camera" ∷ [])
    ≤ votes_for IdentityField.category_field "Printer" (says 30 "Printer" ∷ says 20 "Camera" ∷ [])
unfolding winner field_totals lookup upsert
winner-best_example =
    winner-best IdentityField.category_field "Printer" "Camera"
      (says 30 "Printer" ∷ says 20 "Camera" ∷ []) refl

judged-contested_example :
    ((judged (says 30 "Printer" ∷ says 30 "Camera" ∷ [])).category ≡ "Printer")
    × ((judged (says 30 "Printer" ∷ says 30 "Camera" ∷ [])).confidence ≡ 0)
judged-contested_example =
    judged-contested (says 30 "Printer") (says 30 "Camera") "Printer" "Camera" refl refl refl refl
      (refl, refl, refl)
