-- ===== src/Store/Presence.antt =====
-- lanfence/db.py: presence policies and the availability episode of a device.
use lan_fence.Base.{
  ℕ, String, Bool, false, Option, none, some, lookup, upsert, or_else, if◌then◌else◌,
}
use lan_fence.Models.Device.{PresencePolicyName, PresenceState, unspecified, is_always_on}
use lan_fence.Store.State.{Store}

abbrev pub no_presence : PresenceState
no_presence = record {
  policy = unspecified;
  offline_after = none;
  availability_alerted = false;
  updated_at = none;
}

unfoldable pub get_presence : String → Store → PresenceState
get_presence mac s = or_else (lookup mac s.presence) no_presence

unfoldable pub upsert_presence : String → PresenceState → Store → Store
upsert_presence mac p s = record s { presence = upsert mac p s.presence }

unfoldable pub set_presence_policy : String → PresencePolicyName → ℕ → Store → Store
unfolding upsert_presence
set_presence_policy mac policy updated_at s =
    let current = get_presence mac s in
    if is_always_on policy
    then upsert_presence mac
        (record {
          policy = policy;
          offline_after = current.offline_after;
          availability_alerted = current.availability_alerted;
          updated_at = some updated_at;
        })
        s
    else upsert_presence mac
        (record {
          policy = policy;
          offline_after = none;
          availability_alerted = false;
          updated_at = some updated_at;
        })
        s

unfoldable pub set_offline_after : String → Option ℕ → ℕ → Store → Store
unfolding upsert_presence
set_offline_after mac seconds updated_at s =
    let current = get_presence mac s in
    upsert_presence mac
      (record {
        policy = current.policy;
        offline_after = seconds;
        availability_alerted = current.availability_alerted;
        updated_at = some updated_at;
      })
      s

unfoldable pub set_availability_alerted : String → Bool → ℕ → Store → Store
unfolding upsert_presence
set_availability_alerted mac alerted updated_at s =
    let current = get_presence mac s in
    upsert_presence mac
      (record {
        policy = current.policy;
        offline_after = current.offline_after;
        availability_alerted = alerted;
        updated_at = some updated_at;
      })
      s
