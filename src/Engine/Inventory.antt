-- ===== src/Engine/Inventory.antt =====
-- lanfence/engine.py: the devices on record with their trust, review, presence and metadata, and
-- the review queue.
pub mod Queue
use mathlib.Core.Option
use lan_fence.Allowlist.{AllowEntry, match_entry}
use lan_fence.Base.{
  Bool, List, Option, String, false, if◌then◌else◌, is_none, ltb, map, not, some, some_and,
  sort_desc, true, ℕ, ◌&&◌, ◌||◌,
}
use lan_fence.Engine.Sightings.{entry_name, get_metadata}
use lan_fence.Models.Device.{
  Device, DeviceMetadata, Ip, PresenceState, ReviewState, ReviewStateName,
}
use lan_fence.Store.Evidence.{preferred_in_family}
use lan_fence.Store.Presence.{get_presence}
use lan_fence.Store.Review.{get_review, is_snoozed_review}
use lan_fence.Store.State.{Family, Row, Store, get_device, row_to_device}

unfoldable pub join_device_context :
    Device
    → ReviewState
    → PresenceState
    → DeviceMetadata
    → Option AllowEntry
    → Option Ip
    → Option Ip
    → Device
join_device_context d review presence metadata entry address4 address6 = record d {
  allowlisted = not (is_none entry);
  allowlist_name = entry_name entry;
  review_state = review.state;
  review_notes = review.notes;
  snoozed_until = review.snoozed_until;
  presence_policy = presence.policy;
  offline_after = presence.offline_after;
  metadata = some metadata;
  ipv4 = address4;
  ipv6 = address6;
}

-- the join of one device with the tables
unfoldable pub joined : List AllowEntry → Store → Device → Device
unfolding join_device_context
joined allowlist s d =
    join_device_context d (get_review d.mac s) (get_presence d.mac s) (get_metadata d.mac s)
      (match_entry d.mac allowlist) (preferred_in_family Family.ipv4 d.mac s)
      (preferred_in_family Family.ipv6 d.mac s)

-- `all_devices`, the last seen first
unfoldable pub all_devices : Store → List Device
all_devices s =
    map (λ (e : String × Row). row_to_device e.0 e.1)
      (sort_desc (λ (e : String × Row). e.1.last_seen) s.devices)

unfoldable pub build_inventory : List AllowEntry → Store → List Device
unfolding joined all_devices
build_inventory allowlist s = map (joined allowlist s) (all_devices s)

unfoldable pub build_device : List AllowEntry → String → Store → Option Device
unfolding joined
build_device allowlist mac s = Option.map (joined allowlist s) (get_device mac s)

abbrev pub is_investigating : ReviewStateName → Bool
is_investigating ReviewStateName.investigating = true
is_investigating _ = false

unfoldable pub is_review_needed : Device → ℕ → Bool
is_review_needed d now =
    if d.allowlisted || is_investigating d.review_state
    then false
    else if is_snoozed_review d.review_state && some_and d.snoozed_until (λ until. ltb now until)
    then false
    else true
