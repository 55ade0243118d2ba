-- ===== src/Baseline/Scalars.antt =====
-- lanfence/baseline.py: how the address, the name, the identity and the trust of one device are
pub mod Settled
pub mod Once
-- compared with its baseline (`_compare`, but for the loop over the signals).
use mathlib.Core.Option
use Prim.Native.Nat.{◌/◌, min}
use lan_fence.Base.{
  Bool, Option, String, [], coalesce, elem, false, if◌then◌else◌, is_none, leb, ltb, map, none,
  none_or, not, some, some_and, str_eq, true, ℕ, ◌&&◌, ◌+◌, ◌==◌, ◌||◌,
}
use lan_fence.Baseline.Ingest.{Detection, record_detected}
use lan_fence.Engine.Inventory.{is_review_needed}
use lan_fence.Identity.{DeviceIdentity, is_known, probable_identity}
use lan_fence.Models.Baseline.{DeviceBaseline}
use lan_fence.Models.Change.{
  ChangeEvent, ChangeReviewState, ChangeType, Significance, baseline_established, hostname_changed,
  identity_changed, ip_changed, no_current, trust_changed, unknown_device_present, unreviewed,
}
use lan_fence.Models.Device.{Address, Device, Ip, ReviewStateName, invalid, is_online, v4, v6}
use lan_fence.Text.{lower}

-- What the comparison reads: the device, its identity, the time of its newest inspection, the time,
-- `watching_since` and the settings.
pub record Subject : Type 0 where
  pub device : Device
  pub identity : DeviceIdentity
  pub inspection_at : Option ℕ
  pub effective_category : String
  pub now : ℕ
  pub watching_since : Option ℕ
  pub learning_time : ℕ
  pub unknown_time : ℕ
  pub service_removal : ℕ
  pub max_items : ℕ

-- a baseline that starts now
unfoldable pub seeded_baseline : Subject → DeviceBaseline
seeded_baseline c = record {
  started_at = c.now;
  established_at = none;
  excluded_signals = [];
  ipv4 = c.device.ipv4;
  hostname = c.device.hostname;
  identity_category = if is_known c.identity then some c.identity.category else none;
  identity_manufacturer = if is_known c.identity then c.identity.manufacturer else none;
  trusted = c.device.allowlisted;
  inspection_at = c.inspection_at;
  unknown_present_event_id = none;
}

-- `ipaddress.ip_network(f"{text}/24", strict=False)`; `none` stands for a ValueError
abbrev network_24 : Address → Option (Bool × ℕ)
network_24 (v4 n) = some (true, n / 256)
network_24 (v6 n) = some (false, n / 20282409603651670423947251286016)
network_24 invalid = none

abbrev same_family : Bool → Bool → Bool
same_family true b = b
same_family false b = not b

abbrev same_block : Option (Bool × ℕ) → Option (Bool × ℕ) → Bool
same_block (some (f, m)) (some (g, n)) = same_family f g && m == n
same_block _ _ = false

unfoldable pub same_network : Ip → Ip → Bool
same_network old new = same_block (network_24 old.address) (network_24 new.address)

-- a change of the device; `suppressed` where its signal is excluded
abbrev pub scalar_change :
    Subject
    → DeviceBaseline
    → ChangeType
    → Option String
    → Option String
    → Significance
    → ChangeEvent
scalar_change c b t signal subject significance = record {
  id = none;
  mac = some c.device.mac;
  subject_id = none;
  change_type = t;
  occurred_at = c.now;
  signal = signal;
  subject = subject;
  current = no_current;
  evidence = [];
  significance = significance;
  suppressed = some_and signal (λ s. elem s b.excluded_signals);
  review_state = ChangeReviewState.unreviewed;
  review_note = none;
  reviewed_at = none;
  snoozed_until = none;
  policy_id = none;
  alerted_at = none;
}

abbrev pub is_learning : DeviceBaseline → Bool
is_learning b = is_none b.established_at

abbrev pub one_day : ℕ
one_day = 86400000000

-- the learning is over, and the device was there for a day of it
abbrev pub has_learned : Subject → DeviceBaseline → Bool
has_learned c b =
    leb (b.started_at + c.learning_time) c.now
    && leb (b.started_at + min one_day c.learning_time) c.device.last_seen

unfoldable pub judge_learning : Subject → DeviceBaseline → Detection → DeviceBaseline × Detection
judge_learning c b d =
    if is_learning b && has_learned c b
    then (
      record b { established_at = some c.now },
      record_detected
          (scalar_change c b ChangeType.baseline_established none none Significance.info) d,
    )
    else (b, d)

-- an address that is there: its text is not empty
abbrev pub present_ip : Option Ip → Option Ip
present_ip none = none
present_ip (some i) = if str_eq i.text "" then none else some i

abbrev pub is_ip_changed : Option Ip → Option Ip → Bool
is_ip_changed (some old) (some new) = not (str_eq new.text old.text)
is_ip_changed _ _ = false

abbrev different_network : Option Ip → Option Ip → Bool
different_network (some old) (some new) = not (same_network old new)
different_network _ _ = false

-- `learning` says whether the device was being learned when the comparison began
unfoldable pub judge_address :
    Subject → Bool → DeviceBaseline → Detection → DeviceBaseline × Detection
judge_address c learning b d =
    let old = present_ip b.ipv4 in
    let new = present_ip c.device.ipv4 in
    (
      record b { ipv4 = coalesce new b.ipv4 },
      if is_ip_changed old new
          then record_detected
              (scalar_change c b ChangeType.ip_changed (some "ip")
                (Option.map (λ (i : Ip). i.text) new)
                (if different_network old new
                  then (if learning then Significance.low else Significance.medium)
                  else Significance.info))
              d
          else d,
    )

abbrev pub present_text : Option String → Option String
present_text none = none
present_text (some s) = if str_eq s "" then none else some s

abbrev pub is_name_changed : Option String → Option String → Bool
is_name_changed (some old) (some new) = not (str_eq (lower new) (lower old))
is_name_changed _ _ = false

unfoldable pub judge_hostname :
    Subject → Bool → DeviceBaseline → Detection → DeviceBaseline × Detection
judge_hostname c learning b d =
    let old = present_text b.hostname in
    let new = present_text c.device.hostname in
    (
      record b { hostname = coalesce new b.hostname },
      if is_name_changed old new
          then record_detected
              (scalar_change c b ChangeType.hostname_changed (some "hostname") new
                (if learning then Significance.info else Significance.low))
              d
          else d,
    )

-- not None and not "Unknown"
abbrev pub is_category_changed : Option String → String → Bool
is_category_changed none new = false
is_category_changed (some old) new =
    not (str_eq old "Unknown") && not (str_eq new "Unknown") && not (str_eq new old)

abbrev pub is_maker_changed : Option String → Option String → Bool
is_maker_changed (some old) (some new) = not (str_eq new old)
is_maker_changed _ _ = false

unfoldable pub judge_identity :
    Subject → Bool → DeviceBaseline → Detection → DeviceBaseline × Detection
judge_identity c learning b d =
    let i = c.identity in
    if not (is_known i) then (b, d) else (
      record b {
        identity_category = some i.category;
        identity_manufacturer = coalesce (present_text i.manufacturer) b.identity_manufacturer;
      },
      if is_category_changed b.identity_category i.category
            || is_maker_changed (present_text b.identity_manufacturer) (present_text i.manufacturer)
          then record_detected
              (scalar_change c b ChangeType.identity_changed (some "identity")
                (some (probable_identity i))
                (if learning then Significance.info else Significance.medium))
              d
          else d,
    )

abbrev pub same_bool : Bool → Bool → Bool
same_bool true b = b
same_bool false b = not b

-- trust has no signal, so that nothing excludes it
unfoldable pub judge_trust : Subject → DeviceBaseline → Detection → DeviceBaseline × Detection
judge_trust c b d = if same_bool c.device.allowlisted b.trusted then (b, d) else (
  record b { trusted = c.device.allowlisted },
  record_detected (scalar_change c b ChangeType.trust_changed none none Significance.info) d,
)

abbrev is_pending_review : ReviewStateName → Bool
is_pending_review ReviewStateName.pending = true
is_pending_review _ = false

-- `unknown_present`
unfoldable pub is_unknown_present : Subject → Bool
is_unknown_present c =
    none_or c.watching_since (λ t. ltb t c.device.first_seen)
    && not c.device.allowlisted
    && is_online c.device.status
    && is_pending_review c.device.review_state
    && is_review_needed c.device c.now
    && leb (c.device.first_seen + c.unknown_time) c.now

unfoldable pub judge_unknown : Subject → DeviceBaseline → Detection → DeviceBaseline × Detection
judge_unknown c b d =
    if is_unknown_present c && is_none b.unknown_present_event_id
    then (
      record b { unknown_present_event_id = some (d.log.seq + 1) },
      record_detected
          (scalar_change c b ChangeType.unknown_device_present none none Significance.high) d,
    )
    else if not (is_none b.unknown_present_event_id)
        && (c.device.allowlisted || not (is_review_needed c.device c.now))
    then (record b { unknown_present_event_id = none }, d)
    else (b, d)
