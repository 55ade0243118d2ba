-- ===== src/Store/State.antt =====
-- lanfence/db.py: the tables of the database, and reads and writes of one row.
use lan_fence.Base.{Bool, List, Option, String, Table, [], filter, lookup, none, ℕ, ◌++◌, ◌+◌, ◌∷◌}
use lan_fence.Models.Device.{
  AssociationKind, Device, DeviceEvent, DeviceMetadata, Ip, NameSource, PresenceState, ReviewState,
  Source, Status, is_online, pending, unspecified,
}
use lan_fence.Models.Severity.{Severity}
use mathlib.Core.Option

-- a row of `devices`, without its key
pub record Row : Type 0 where
  pub ip : Option Ip
  pub hostname : Option String
  pub vendor : Option String
  pub status : Status
  pub first_seen : ℕ
  pub last_seen : ℕ
  pub missed_scans : ℕ
  pub seen_via_ipv4 : Bool
  pub seen_via_ipv6 : Bool
  pub last_interface : Option String
  pub ipv4_subnet : Option String

pub record EventRow : Type 0 where
  pub id : ℕ
  pub event : DeviceEvent

pub record AlertRow : Type 0 where
  pub last_alerted_at : ℕ
  pub last_severity : Severity

pub record Window : Type 0 where
  pub window_start : ℕ
  pub count : ℕ

pub data Family : Type 0 where
  ipv4 ipv6 : Family

-- rows of `device_addresses` and `device_names`, without the MAC
pub record AddressRow : Type 0 where
  pub ip : Ip
  pub family : Family
  pub interface : String
  pub source : Source
  pub kind : AssociationKind
  pub first_seen : ℕ
  pub last_seen : ℕ

pub record NameRow : Type 0 where
  pub name : String
  pub name_key : String
  pub source : NameSource
  pub ip : String
  pub interface : String
  pub first_seen : ℕ
  pub last_seen : ℕ

-- a row of `dhcp_servers`; its key is the pair of the first two fields
pub record DhcpServerRow : Type 0 where
  pub interface : String
  pub server_id : String
  pub first_seen : ℕ
  pub last_seen : ℕ
  pub observation_count : ℕ
  pub last_message_type : String
  pub last_source_ip : Option String
  pub last_source_mac : Option String
  pub last_relay_ip : Option String
  pub last_router : Option String
  pub last_dns : Option String

-- a row of `dhcp_server_findings`
pub record DhcpFindingRow : Type 0 where
  pub id : ℕ
  pub interface : String
  pub server_id : String
  pub observed_at : ℕ
  pub approved_at_observation : Bool
  pub message_type : String
  pub source_ip : Option String
  pub source_mac : Option String
  pub relay_ip : Option String
  pub router : Option String
  pub dns : Option String

-- `dhcp_findings` stands in falling order of `id`, whose AUTOINCREMENT counter is `dhcp_seq`, and
-- `event_seq` is the AUTOINCREMENT counter of `events`; evidence is grouped by MAC.
pub record Store : Type 0 where
  pub devices : Table Row
  pub events : List EventRow
  pub event_seq : ℕ
  pub alert_log : Table AlertRow
  pub alert_window : Option Window
  pub review : Table ReviewState
  pub presence : Table PresenceState
  pub addresses : Table (List AddressRow)
  pub names : Table (List NameRow)
  pub metadata : Table DeviceMetadata
  pub sms_budget : Table ℕ
  pub max_evidence_rows : ℕ
  pub dhcp_servers : List DhcpServerRow
  pub dhcp_findings : List DhcpFindingRow
  pub dhcp_seq : ℕ
  pub max_dhcp_findings : ℕ

-- `_row_to_device`
abbrev pub row_to_device : String → Row → Device
row_to_device mac r = record {
  mac = mac;
  ip = r.ip;
  ipv4 = none;
  ipv6 = none;
  hostname = r.hostname;
  vendor = r.vendor;
  status = r.status;
  first_seen = r.first_seen;
  last_seen = r.last_seen;
  allowlisted = Bool.false;
  allowlist_name = none;
  fingerprints = [];
  review_state = pending;
  review_notes = none;
  snoozed_until = none;
  presence_policy = unspecified;
  offline_after = none;
  metadata = none;
}

unfoldable pub get_device : String → Store → Option Device
get_device mac s = Option.map (row_to_device mac) (lookup mac s.devices)

-- `SELECT ... FROM devices WHERE status = 'online'`
abbrev pub online_rows : Table Row → Table Row
online_rows t = filter (λ e. is_online e.1.status) t

unfoldable pub record_event : DeviceEvent → Store → Store
record_event e s = record s {
  event_seq = s.event_seq + 1;
  events = s.events ++ record { id = s.event_seq + 1; event = e } ∷ [];
}
