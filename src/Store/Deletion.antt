-- ===== src/Store/Deletion.antt =====
-- lanfence/db.py: `delete_device` and `reset_all`.
use lan_fence.Base.{Bool, String, [], erase, filter, is_none, lookup, none, not, str_eq}
use lan_fence.Store.State.{EventRow, Store}

-- `_PER_DEVICE_TABLES`, and whether there was a row in `devices`
unfoldable pub delete_device : String → Store → Bool × Store
delete_device mac s = (
  not (is_none (lookup mac s.devices)),
  record s {
    devices = erase mac s.devices;
    events = filter (λ (r : EventRow). not (str_eq mac r.event.mac)) s.events;
    alert_log = erase mac s.alert_log;
    review = erase mac s.review;
    presence = erase mac s.presence;
    addresses = erase mac s.addresses;
    names = erase mac s.names;
    metadata = erase mac s.metadata;
  },
)

-- The SMS budget is kept, and so are the AUTOINCREMENT counters.
unfoldable pub reset_all : Store → Store
reset_all s = record s {
  devices = [];
  events = [];
  alert_log = [];
  alert_window = none;
  review = [];
  presence = [];
  addresses = [];
  names = [];
  metadata = [];
  dhcp_servers = [];
  dhcp_findings = [];
}
