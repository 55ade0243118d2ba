-- ===== src/Policy/Defaults.antt =====
-- lanfence/policy.py: DEFAULT_POLICIES, and what they make of the built-in findings.
use lan_fence.Base.{
  List, Option, [], ap, arith, false, if◌then◌else◌, none, refl, some, str_eq, true, ◌∙◌, ◌∷◌, ◌≡◌,
}
use lan_fence.Changes.{significance_at_least}
use lan_fence.Models.Change.{ChangeType, RiskLevel, Significance}
use lan_fence.Models.Finding.{Finding}
use lan_fence.Models.Severity.{Severity}
use lan_fence.Policy.{
  Action, DeviceContext, Policy, PolicyConditions, is_builtin_alerted, match_policy, matches,
  pseudo_event, shape_as, shape_builtin_finding, shaped,
}

abbrev any_device : PolicyConditions
any_device = record {
  trusted = none;
  categories = [];
  min_significance = none;
  admin_service = none;
  services = [];
  risk_levels = [];
  rising = none;
}

abbrev pub new_infrastructure_device : Policy
new_infrastructure_device = record {
  id = "new-infrastructure-device";
  description = "New untrusted network infrastructure device";
  enabled = true;
  triggers = ChangeType.new_device ∷ [];
  conditions = record any_device {
    trusted = some false;
    categories = "Network Infrastructure" ∷ [];
  };
  severity = Severity.critical;
  action = Action.alert;
  cooldown = none;
}

abbrev pub new_unknown_device : Policy
new_unknown_device = record {
  id = "new-unknown-device";
  description = "New untrusted device joined";
  enabled = true;
  triggers = ChangeType.new_device ∷ [];
  conditions = record any_device { trusted = some false };
  severity = Severity.high;
  action = Action.alert;
  cooldown = none;
}

abbrev unapproved_dhcp_server : Policy
unapproved_dhcp_server = record {
  id = "unapproved-dhcp-server";
  description = "Unapproved DHCP server answered";
  enabled = true;
  triggers = ChangeType.dhcp_server_unexpected ∷ [];
  conditions = any_device;
  severity = Severity.critical;
  action = Action.alert;
  cooldown = none;
}

abbrev new_remote_admin_service : Policy
new_remote_admin_service = record {
  id = "new-remote-admin-service";
  description = "New remote-administration service (SSH, RDP, VNC, ...)";
  enabled = true;
  triggers = ChangeType.service_new ∷ ChangeType.mdns_service_new ∷ [];
  conditions = record any_device { admin_service = some true };
  severity = Severity.high;
  action = Action.alert;
  cooldown = none;
}

abbrev new_service_on_trusted_server : Policy
new_service_on_trusted_server = record {
  id = "new-service-on-trusted-server";
  description = "New service on a trusted server, NAS or infrastructure";
  enabled = true;
  triggers =
      ChangeType.service_new ∷ ChangeType.mdns_service_new ∷ ChangeType.ssdp_service_new ∷ [];
  conditions = record any_device {
    trusted = some true;
    categories = "Server" ∷ "Storage / NAS" ∷ "Network Infrastructure" ∷ [];
  };
  severity = Severity.medium;
  action = Action.alert;
  cooldown = none;
}

abbrev unknown_device_present_policy : Policy
unknown_device_present_policy = record {
  id = "unknown-device-present";
  description = "Untrusted, unreviewed device on the network for over an hour";
  enabled = true;
  triggers = ChangeType.unknown_device_present ∷ [];
  conditions = any_device;
  severity = Severity.high;
  action = Action.alert;
  cooldown = none;
}

abbrev risk_high : Policy
risk_high = record {
  id = "risk-high";
  description = "A device's risk rose to high or critical";
  enabled = true;
  triggers = ChangeType.risk_changed ∷ [];
  conditions = record any_device {
    risk_levels = RiskLevel.high ∷ RiskLevel.critical ∷ [];
    rising = some true;
  };
  severity = Severity.high;
  action = Action.alert;
  cooldown = none;
}

abbrev identity_changed_policy : Policy
identity_changed_policy = record {
  id = "identity-changed";
  description = "A device's identity changed";
  enabled = true;
  triggers = ChangeType.identity_changed ∷ [];
  conditions = any_device;
  severity = Severity.medium;
  action = Action.alert;
  cooldown = none;
}

abbrev informational_changes : Policy
informational_changes = record {
  id = "informational-changes";
  description = "Everything else worth knowing - digest only";
  enabled = true;
  triggers =
      ChangeType.ip_changed ∷ ChangeType.ipv6_prefix_new ∷ ChangeType.hostname_changed
      ∷ ChangeType.trust_changed ∷ ChangeType.baseline_established ∷ ChangeType.service_new
      ∷ ChangeType.service_removed ∷ ChangeType.mdns_service_new ∷ ChangeType.mdns_service_removed
      ∷ ChangeType.ssdp_service_new ∷ ChangeType.ssdp_service_removed ∷ [];
  conditions = record any_device { min_significance = some Significance.low };
  severity = Severity.info;
  action = Action.digest;
  cooldown = none;
}

-- DEFAULT_POLICIES
abbrev pub default_policies : List Policy
default_policies =
    new_infrastructure_device ∷ new_unknown_device ∷ unapproved_dhcp_server
    ∷ new_remote_admin_service ∷ new_service_on_trusted_server ∷ unknown_device_present_policy
    ∷ risk_high ∷ identity_changed_policy ∷ informational_changes ∷ []

-- the policy that a built-in finding meets among the defaults, as the documentation tells it
abbrev pub default_for : Option ChangeType → DeviceContext → Option Policy
default_for (some ChangeType.new_device) d =
    if d.trusted
    then none
    else if str_eq d.category "Network Infrastructure"
    then some new_infrastructure_device
    else some new_unknown_device
default_for (some ChangeType.dhcp_server_unexpected) d = some unapproved_dhcp_server
default_for _ d = none

abbrev pub escalated : Finding → Option Policy → Finding
escalated f none = f
escalated f (some p) = record f { severity = p.severity; policy_id = some p.id; cooldown = none }

match_policy-new_device :
    (f : Finding) (d : DeviceContext)
    → match_policy default_policies (pseudo_event f ChangeType.new_device) d
      ≡ default_for (some ChangeType.new_device) d
unfolding match_policy matches significance_at_least
match_policy-new_device f d = ground arith

shape_as-default :
    (f : Finding) (d : DeviceContext) (t : Option ChangeType)
    → (if is_builtin_alerted t then shape_as f default_policies d t else (f, true))
      ≡ (escalated f (default_for t d), true)
unfolding match_policy matches significance_at_least
shape_as-default f d none = refl
shape_as-default f d (some ChangeType.new_device) =
    ap (shaped f) (match_policy-new_device f d) ∙ ground arith
shape_as-default f d (some ChangeType.reappeared) = refl
shape_as-default f d (some ChangeType.disconnected) = refl
shape_as-default f d (some ChangeType.dhcp_server_unexpected) = refl
shape_as-default f d (some ChangeType.ip_changed) = refl
shape_as-default f d (some ChangeType.ipv6_prefix_new) = refl
shape_as-default f d (some ChangeType.hostname_changed) = refl
shape_as-default f d (some ChangeType.identity_changed) = refl
shape_as-default f d (some ChangeType.trust_changed) = refl
shape_as-default f d (some ChangeType.service_new) = refl
shape_as-default f d (some ChangeType.service_removed) = refl
shape_as-default f d (some ChangeType.mdns_service_new) = refl
shape_as-default f d (some ChangeType.mdns_service_removed) = refl
shape_as-default f d (some ChangeType.ssdp_service_new) = refl
shape_as-default f d (some ChangeType.ssdp_service_removed) = refl
shape_as-default f d (some ChangeType.baseline_established) = refl
shape_as-default f d (some ChangeType.baseline_reset) = refl
shape_as-default f d (some ChangeType.unknown_device_present) = refl
shape_as-default f d (some ChangeType.risk_changed) = refl

-- Under the default policies every built-in finding is dispatched. One on a new device that is not
-- trusted becomes critical if its category is network infrastructure and high otherwise, one on an
-- unapproved DHCP server becomes critical, and every other one stays as it is.
pub shape_builtin_finding-default :
    (f : Finding) (d : DeviceContext)
    → shape_builtin_finding f default_policies d ≡ (escalated f (default_for f.change_type d), true)
unfolding shape_builtin_finding
shape_builtin_finding-default f d = shape_as-default f d f.change_type
