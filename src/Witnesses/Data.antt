-- ===== src/Witnesses/Data.antt =====
-- Devices, sightings and settings of one small network.
use lan_fence.Base.{String, [], false, none, some, true, ℕ, ◌∷◌}
use lan_fence.Models.Device.{
  AssociationKind, Ip, NameSource, PresencePolicyName, Source, Status, v4,
}
use lan_fence.Store.Availability.{evaluate_availability}
use lan_fence.Store.Coverage.{Coverage}
use lan_fence.Store.Lifecycle.{empty_store}
use lan_fence.Store.Observe.{Sighting, first_row}
use lan_fence.Store.Observe.Rows.{after_observe}
use lan_fence.Store.Offline.{Sweep}
use lan_fence.Store.State.{AddressRow, Family, Row, Store}

abbrev pub mac_a : String
mac_a = "aa:bb:cc:00:00:01"

abbrev pub mac_b : String
mac_b = "aa:bb:cc:00:00:02"

abbrev pub ip_a : Ip
ip_a = record { text = "192.168.1.5"; address = v4 3232235781 }

abbrev pub ip_b : Ip
ip_b = record { text = "192.168.1.6"; address = v4 3232235782 }

abbrev pub sighting_a : ℕ → Sighting
sighting_a t = record {
  mac = mac_a;
  ip = some ip_a;
  hostname = some "laptop";
  vendor = none;
  seen_at = t;
  interface = some "eth0";
  subnet = some "192.168.1.0/24";
  source = Source.arp;
  hostname_source = some NameSource.dhcp_option_12;
}

abbrev pub whole_network : Coverage
whole_network = record {
  ipv4_covered = true;
  ipv4_subnet = some "192.168.1.0/24";
  ipv6_covered = true;
  interface = some "eth0";
}

-- a sweep at time 1000 that found no device
abbrev pub quiet_sweep : Sweep
quiet_sweep = record {
  still_online = [];
  as_of = 1000;
  grace = 100;
  missed_after = 1;
  coverage = whole_network;
}

abbrev pub new_database : Store
new_database = empty_store 3

abbrev pub one_device : Store
one_device = after_observe (sighting_a 5) new_database

-- the same device, gone and expected to be there
abbrev pub row_gone : Row
row_gone = record (first_row (sighting_a 5)) { status = Status.offline }

abbrev pub device_gone : Store
device_gone = record new_database {
  devices = (mac_a, row_gone) ∷ [];
  presence =
      (
        mac_a,
        record {
          policy = PresencePolicyName.always_on;
          offline_after = none;
          availability_alerted = false;
          updated_at = some 6;
        },
      )
      ∷ [];
}

-- and its absence was alerted on
abbrev pub alerted_gone : Store
alerted_gone = (evaluate_availability 2000 60 whole_network device_gone).1

-- a window that was opened at time 0 and holds one alert
abbrev pub open_window : Store
open_window = record new_database { alert_window = some (record { window_start = 0; count = 1 }) }

-- what a first sighting leaves as evidence
abbrev pub evidence_a : AddressRow
evidence_a = record {
  ip = ip_a;
  family = Family.ipv4;
  interface = "eth0";
  source = Source.arp;
  kind = AssociationKind.observed;
  first_seen = 5;
  last_seen = 5;
}

-- the device was seen at one address, and a DHCP server reported another one later
abbrev pub evidence_reported : AddressRow
evidence_reported = record evidence_a {
  ip = ip_b;
  source = Source.dhcp_ack;
  kind = AssociationKind.lease_reported;
  last_seen = 9;
}

abbrev pub two_addresses : Store
two_addresses = record new_database {
  addresses = (mac_a, evidence_reported ∷ evidence_a ∷ []) ∷ [];
}
