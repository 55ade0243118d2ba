-- ===== src/Store/Observe.antt =====
-- lanfence/db.py: `DeviceStore.observe`, which folds one sighting into the database.
pub mod Rows
use lan_fence.Base.{
  Bool, Option, String, coalesce, false, if◌then◌else◌, leb, lookup, none, or_empty, some, true,
  truthy, upsert, ℕ, ◌&&◌, ◌||◌,
}
use lan_fence.Models.Device.{
  Device, EventType, Ip, NameSource, Source, arp, icmp, ipv6_nd, new_device, observed, offline,
  online, reappeared, v4, v6,
}
use lan_fence.Store.Evidence.{
  record_address_evidence, record_name_evidence, refresh_preferred_fields,
}
use lan_fence.Store.State.{Row, Store, get_device, record_event}

-- the keyword arguments of `observe`
pub record Sighting : Type 0 where
  pub mac : String
  pub ip : Option Ip
  pub hostname : Option String
  pub vendor : Option String
  pub seen_at : ℕ
  pub interface : Option String
  pub subnet : Option String
  pub source : Source
  pub hostname_source : Option NameSource

abbrev pub is_ipv4 : Option Ip → Bool
is_ipv4 none = false
is_ipv4 (some ip) = elim ip.address [ v4 n ↦ true | _ ↦ false ]

abbrev pub is_ipv6 : Option Ip → Bool
is_ipv6 none = false
is_ipv6 (some ip) = elim ip.address [ v6 n ↦ true | _ ↦ false ]

abbrev pub is_directly_observed : Source → Bool
is_directly_observed arp = true
is_directly_observed ipv6_nd = true
is_directly_observed icmp = true
is_directly_observed _ = false

-- `subnet if is_ipv4 else None`
abbrev sighted_subnet : Sighting → Option String
sighted_subnet a = if is_ipv4 a.ip then a.subnet else none

-- INSERT INTO devices
abbrev pub first_row : Sighting → Row
first_row a = record {
  ip = a.ip;
  hostname = a.hostname;
  vendor = a.vendor;
  status = online;
  first_seen = a.seen_at;
  last_seen = a.seen_at;
  missed_scans = 0;
  seen_via_ipv4 = is_ipv4 a.ip;
  seen_via_ipv6 = is_ipv6 a.ip;
  last_interface = a.interface;
  ipv4_subnet = sighted_subnet a;
}

-- UPDATE devices SET ...
abbrev pub seen_row : Sighting → Row → Row
seen_row a r =
    let advance = leb r.last_seen a.seen_at in
    record {
      ip = if advance then a.ip else r.ip;
      hostname = if advance then a.hostname else r.hostname;
      vendor = coalesce a.vendor r.vendor;
      status = online;
      first_seen = r.first_seen;
      last_seen = if advance then a.seen_at else r.last_seen;
      missed_scans = 0;
      seen_via_ipv4 = r.seen_via_ipv4 || is_ipv4 a.ip;
      seen_via_ipv6 = r.seen_via_ipv6 || is_ipv6 a.ip;
      last_interface = coalesce a.interface r.last_interface;
      ipv4_subnet = coalesce (sighted_subnet a) r.ipv4_subnet;
    }

abbrev pub transition : Option Row → Option EventType
transition none = some new_device
transition (some r) = elim r.status [ offline ↦ some reappeared | online ↦ none ]

abbrev pub written_row : Sighting → Option Row → Row
written_row a none = first_row a
written_row a (some r) = seen_row a r

unfoldable pub write_device : Sighting → Store → Store
write_device a s = record s {
  devices = upsert a.mac (written_row a (lookup a.mac s.devices)) s.devices;
}

abbrev pub ip_text : Option Ip → Option String
ip_text none = none
ip_text (some ip) = some ip.text

abbrev pub address_step : Sighting → Option Ip → Store → Store
address_step a none s = s
address_step a (some ip) s =
    if truthy (some ip.text) && is_directly_observed a.source
    then record_address_evidence a.mac ip (or_empty a.interface) a.source observed a.seen_at s
    else s

abbrev pub name_step : Sighting → Option String → Option NameSource → Store → Store
name_step a (some name) (some source) s =
    if truthy (some name)
    then record_name_evidence a.mac name source (or_empty (ip_text a.ip)) (or_empty a.interface)
        a.seen_at s
    else s
name_step a _ _ s = s

unfoldable pub write_evidence : Sighting → Store → Store
write_evidence a s =
    refresh_preferred_fields a.mac
      (name_step a a.hostname a.hostname_source (address_step a a.ip s))

abbrev pub event_step : Sighting → Option EventType → Store → Store
event_step a none s = s
event_step a (some e) s =
    record_event
      (record {
        mac = a.mac;
        event_type = e;
        timestamp = a.seen_at;
        ip = a.ip;
        hostname = a.hostname;
      })
      s

-- `none` is the failure of `assert device is not None`
abbrev finish :
    Sighting → Option EventType → Store → Option Device → Option (Device × Option EventType × Store)
finish a e s none = none
finish a e s (some device) = some (device, e, event_step a e s)

unfoldable pub observe : Sighting → Store → Option (Device × Option EventType × Store)
observe a s =
    let event_type = transition (lookup a.mac s.devices) in
    let s' = write_evidence a (write_device a s) in finish a event_type s' (get_device a.mac s')
