-- ===== src/Models/Device.antt =====
-- lanfence/models.py: addresses, devices, lifecycle events, review and presence state.
-- Times are microseconds since an origin before every recorded time. A MAC is its normalised text.
use lan_fence.Base.{ℕ, String, Bool, true, false, Option, none, List}

-- What `ipaddress.ip_address` makes of a text; `invalid` where it raises ValueError.
pub data Address : Type 0 where
  v4 v6 : ℕ → Address
  invalid : Address

-- An address text of the program, with what it parses to.
pub record Ip : Type 0 where
  pub text : String
  pub address : Address

pub data EventType : Type 0 where
  new_device reappeared disconnected : EventType

pub data Status : Type 0 where
  online offline : Status

abbrev pub is_online : Status → Bool
is_online online = true
is_online offline = false

pub data ReviewStateName : Type 0 where
  pending snoozed investigating : ReviewStateName

pub data PresencePolicyName : Type 0 where
  unspecified intermittent always_on : PresencePolicyName

abbrev pub is_always_on : PresencePolicyName → Bool
is_always_on always_on = true
is_always_on _ = false

abbrev pub is_intermittent : PresencePolicyName → Bool
is_intermittent intermittent = true
is_intermittent _ = false

-- Where a sighting or a piece of address evidence came from (`SightingSource`, `AddressSource`).
pub data Source : Type 0 where
  arp ipv6_nd icmp dhcp_client dhcp_ack legacy_snapshot : Source

abbrev pub source_index : Source → ℕ
source_index arp = 0
source_index ipv6_nd = 1
source_index icmp = 2
source_index dhcp_client = 3
source_index dhcp_ack = 4
source_index legacy_snapshot = 5

pub data NameSource : Type 0 where
  dhcp_option_12 reverse_dns legacy_name : NameSource

abbrev pub name_source_index : NameSource → ℕ
name_source_index dhcp_option_12 = 0
name_source_index reverse_dns = 1
name_source_index legacy_name = 2

pub data AssociationKind : Type 0 where
  observed lease_reported : AssociationKind

pub record DeviceMetadata : Type 0 where
  pub owner : Option String
  pub location : Option String
  pub asset_type : Option String
  pub purpose : Option String
  pub notes : Option String
  pub category_override : Option String

abbrev pub no_metadata : DeviceMetadata
no_metadata = record {
  owner = none;
  location = none;
  asset_type = none;
  purpose = none;
  notes = none;
  category_override = none;
}

pub record Device : Type 0 where
  pub mac : String
  pub ip : Option Ip
  pub ipv4 : Option Ip
  pub ipv6 : Option Ip
  pub hostname : Option String
  pub vendor : Option String
  pub status : Status
  pub first_seen : ℕ
  pub last_seen : ℕ
  pub allowlisted : Bool
  pub allowlist_name : Option String
  pub fingerprints : List String
  pub review_state : ReviewStateName
  pub review_notes : Option String
  pub snoozed_until : Option ℕ
  pub presence_policy : PresencePolicyName
  pub offline_after : Option ℕ
  pub metadata : Option DeviceMetadata

pub record ReviewState : Type 0 where
  pub state : ReviewStateName
  pub notes : Option String
  pub snoozed_until : Option ℕ
  pub updated_at : Option ℕ

pub record PresenceState : Type 0 where
  pub policy : PresencePolicyName
  pub offline_after : Option ℕ
  pub availability_alerted : Bool
  pub updated_at : Option ℕ

pub record DeviceEvent : Type 0 where
  pub mac : String
  pub event_type : EventType
  pub timestamp : ℕ
  pub ip : Option Ip
  pub hostname : Option String
