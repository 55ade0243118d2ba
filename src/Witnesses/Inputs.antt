-- ===== src/Witnesses/Inputs.antt =====
-- Inputs of the engine, the policies and the risk score.
use lan_fence.Base.{List, [], false, none, some, true, ℕ, ◌∷◌}
use lan_fence.Engine.Coalesce.{ArpSighting}
use lan_fence.Engine.Dispatch.{AlertConfig}
use lan_fence.Engine.Findings.{finding}
use lan_fence.Engine.Sightings.{Env, Sighted}
use lan_fence.Fingerprint.{SignatureMatch}
use lan_fence.Models.Change.{ChangeEvent, ChangeType}
use lan_fence.Models.Device.{Device, Source}
use lan_fence.Models.Finding.{Finding, FindingKind}
use lan_fence.Models.Severity.{Severity}
use lan_fence.Policy.{DeviceContext, pseudo_event}
use lan_fence.Risk.{RiskInputs}
use lan_fence.Store.Availability.{Absence}
use lan_fence.Store.Observe.{first_row}
use lan_fence.Store.State.{row_to_device}
use lan_fence.Witnesses.Data.{ip_a, mac_a, mac_b, sighting_a}

-- two neighbours of the engine that know nothing, and no allowlist
abbrev pub quiet_env : Env
quiet_env = record {
  resolve = λ ip. none;
  vendor_of = λ mac. none;
  signatures = record { vendor_keywords = []; hostname_keywords = [] };
  allowlist = [];
  resolve_hostnames = false;
  ipv6 = true;
  offline_grace = 100;
  offline_after_missed_scans = 1;
  offline_retry_probe = false;
  always_on_ping = false;
}

abbrev pub sighted_a : Sighted
sighted_a = record {
  mac = mac_a;
  ip = ip_a;
  seen_at = 3000;
  hostname_hint = none;
  interface = some "eth0";
  subnet = some "192.168.1.0/24";
  source = Source.arp;
}

abbrev pub device_a : Device
device_a = row_to_device mac_a (first_row (sighting_a 5))

abbrev pub trusted_a : Device
trusted_a = record device_a { allowlisted = true; allowlist_name = some "laptop" }

abbrev pub rogue : SignatureMatch
rogue = record {
  category = "pineapple";
  severity = Severity.high;
  title = "Hostname matches known signature: pineapple";
  description = "A rogue access point.";
  evidence = "hostname = 'pineapple'";
}

abbrev pub worst : SignatureMatch
worst = record rogue { severity = Severity.critical }

abbrev pub arp_sighting : ℕ → ArpSighting
arp_sighting t = record {
  ip = "192.168.1.5";
  mac = mac_a;
  seen_at = t;
  hostname = none;
  source = Source.arp;
  interface = some "eth0";
}

-- the last sighting of the batch has another address
abbrev pub batch : List ArpSighting
batch = arp_sighting 5 ∷ arp_sighting 7 ∷ record (arp_sighting 6) { ip = "192.168.1.6" } ∷ []

abbrev pub one_alert : AlertConfig
one_alert = record { rate_limit = 60; global_rate_limit_max = 1; global_rate_limit_window = 3600 }

abbrev pub arrival_finding : Finding
arrival_finding =
    record (finding mac_a "Unknown device" Severity.medium FindingKind.security "It is new."
      "Review it." []) { change_type = some ChangeType.new_device }

abbrev pub two_findings : List Finding
two_findings = arrival_finding ∷ record arrival_finding { mac = some mac_b } ∷ []

abbrev pub guest : DeviceContext
guest = record { trusted = false; category = "Phone"; label = none }

abbrev pub arrival : ChangeEvent
arrival = pseudo_event arrival_finding ChangeType.new_device

abbrev pub exposed : RiskInputs
exposed = record {
  trusted = false;
  investigating = false;
  first_seen = some 5;
  online = true;
  always_on = false;
  private_mac = false;
  identity_category = "Computer";
  identity_confidence = 60;
  identity_manufacturer = some "Acme";
  identity_uncertain = false;
  signature_severities = [];
  new_admin_services = "SSH / TCP 22" ∷ [];
  new_services = [];
  unexpected_change = false;
  identity_changed = false;
  dhcp_server = false;
  long_absence_return = false;
  recent_changes = 0;
}

abbrev pub absent_a : Absence
absent_a = record {
  mac = mac_a;
  ip = some ip_a;
  hostname = none;
  vendor = none;
  offline_after = 60000000;
}
