-- ===== src/Engine/Sightings.antt =====
-- lanfence/engine.py: `process_sighting`, which folds one MAC/IP sighting into the database and
-- says what an operator should see.
pub mod Recovery
use lan_fence.Allowlist.{AllowEntry, match_entry}
use lan_fence.Base.{
  Bool, List, Option, String, [], false, if◌then◌else◌, is_none, lookup, map, none, not, or_else,
  some, true, truthy, ℕ, ◌&&◌, ◌++◌, ◌>>=◌, ◌∷◌,
}
use lan_fence.Engine.Findings.{build_findings, device_lines, finding}
use lan_fence.Fingerprint.{SignatureMatch, SignatureSet, fingerprint_device}
use lan_fence.Models.Change.{ChangeType}
use lan_fence.Models.Device.{
  Device, DeviceMetadata, EventType, Ip, NameSource, Source, dhcp_option_12, disconnected,
  no_metadata, reappeared, reverse_dns,
}
use lan_fence.Models.Finding.{Finding, availability}
use lan_fence.Models.Severity.{info}
use lan_fence.Store.Observe.{Sighting, observe}
use lan_fence.Store.Presence.{get_presence, set_availability_alerted}
use lan_fence.Store.State.{Store}
use lan_fence.Text.{◌+++◌}

-- The configuration and the collaborators of a run: `resolve` is the reverse-DNS lookup of
-- scanner.py, `vendor_of` the lookup in the vendor tables.
pub record Env : Type 0 where
  pub resolve : Ip → Option String
  pub vendor_of : String → Option String
  pub signatures : SignatureSet
  pub allowlist : List AllowEntry
  pub resolve_hostnames : Bool
  pub ipv6 : Bool
  pub offline_grace : ℕ
  pub offline_after_missed_scans : ℕ
  pub offline_retry_probe : Bool
  pub always_on_ping : Bool

-- the arguments of `process_sighting`
pub record Sighted : Type 0 where
  pub mac : String
  pub ip : Ip
  pub seen_at : ℕ
  pub hostname_hint : Option String
  pub interface : Option String
  pub subnet : Option String
  pub source : Source

abbrev looked_up : Option String → Option String × Option NameSource
looked_up name = (name, if truthy name then some reverse_dns else none)

-- the hostname, and which of the two ways produced it
unfoldable pub hostname_of : Env → Sighted → Option String × Option NameSource
hostname_of env g =
    if truthy g.hostname_hint
    then (g.hostname_hint, some dhcp_option_12)
    else if env.resolve_hostnames
    then looked_up (env.resolve g.ip)
    else (g.hostname_hint, none)

unfoldable pub get_metadata : String → Store → DeviceMetadata
get_metadata mac s = or_else (lookup mac s.metadata) no_metadata

-- fetched only where a finding can result
abbrev metadata_for : String → Option EventType → Store → Option DeviceMetadata
metadata_for mac none s = none
metadata_for mac (some disconnected) s = none
metadata_for mac (some e) s = some (get_metadata mac s)

abbrev pub entry_name : Option AllowEntry → Option String
entry_name none = none
entry_name (some e) = some e.name

-- `device.model_copy(update=...)`
unfoldable pub sighted_device :
    Env → Device → Option EventType → List SignatureMatch → Store → Device
unfolding get_presence
sighted_device env d e ms s =
    let entry = match_entry d.mac env.allowlist in
    let presence = get_presence d.mac s in
    record d {
      allowlisted = not (is_none entry);
      allowlist_name = entry_name entry;
      fingerprints = map (λ (m : SignatureMatch). m.category) ms;
      presence_policy = presence.policy;
      offline_after = presence.offline_after;
      metadata = metadata_for d.mac e s;
    }

abbrev pub is_reappeared : Option EventType → Bool
is_reappeared (some reappeared) = true
is_reappeared _ = false

abbrev pub recovery_finding : Device → Finding
recovery_finding d =
    record (finding d.mac "Always-on device recovered" info availability
      ("This device is policy'd as always-on and had been confirmed absent "
        +++ "long enough to trigger an availability alert; it has now reappeared.")
      "No action needed." (device_lines d)) { change_type = some ChangeType.reappeared }

-- the last part of the function: the findings, and the end of an availability episode
unfoldable pub conclude :
    Env
    → Sighted
    → List SignatureMatch
    → Device × Option EventType × Store
    → Device × Option EventType × List Finding × Store
unfolding sighted_device
conclude env g ms (d, e, s) =
    let device = sighted_device env d e ms s in
    let findings = build_findings device e ms in
    if is_reappeared e && (get_presence g.mac s).availability_alerted
    then (
      device,
      e,
      findings ++ recovery_finding device ∷ [],
      set_availability_alerted g.mac false g.seen_at s,
    )
    else (device, e, findings, s)

-- the arguments of the call of `observe`
unfoldable pub sighting_of : Env → Sighted → Sighting
sighting_of env g =
    let (hostname, hostname_source) = hostname_of env g in
    record {
      mac = g.mac;
      ip = some g.ip;
      hostname = hostname;
      vendor = (fingerprint_device env.vendor_of env.signatures g.mac hostname).0;
      seen_at = g.seen_at;
      interface = g.interface;
      subnet = g.subnet;
      source = g.source;
      hostname_source = hostname_source;
    }

-- `none` is the failure of the assertion in `observe`
unfoldable pub process_sighting :
    Env → Sighted → Store → Option (Device × Option EventType × List Finding × Store)
unfolding conclude
process_sighting env g s =
    let ms = (fingerprint_device env.vendor_of env.signatures g.mac (hostname_of env g).0).1 in
    observe (sighting_of env g) s >>= λ r. some (conclude env g ms r)
