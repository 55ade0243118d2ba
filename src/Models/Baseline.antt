-- ===== src/Models/Baseline.antt =====
-- lanfence/models.py: the signals and the items of a baseline.
use lan_fence.Base.{Bool, List, Option, String, false, true, ℕ}
use lan_fence.Models.Device.{Ip}

pub data BaselineSignal : Type 0 where
  port mdns ssdp ipv6_prefix : BaselineSignal

abbrev pub signal_text : BaselineSignal → String
signal_text port = "port"
signal_text mdns = "mdns"
signal_text ssdp = "ssdp"
signal_text ipv6_prefix = "ipv6_prefix"

abbrev pub is_port : BaselineSignal → Bool
is_port port = true
is_port _ = false

abbrev pub is_advertised : BaselineSignal → Bool
is_advertised mdns = true
is_advertised ssdp = true
is_advertised _ = false

abbrev pub is_prefix : BaselineSignal → Bool
is_prefix ipv6_prefix = true
is_prefix _ = false

pub data Origin : Type 0 where
  initial learned accepted seen_later : Origin

-- models.py: BaselineItem, without its MAC; `seen_later` is the origin "observed"
pub record BaselineItem : Type 0 where
  pub signal : BaselineSignal
  pub value : String
  pub in_baseline : Bool
  pub origin : Origin
  pub present : Bool
  pub first_seen : ℕ
  pub last_seen : ℕ
  pub removed_at : Option ℕ

-- models.py: DeviceBaseline, without its MAC
pub record DeviceBaseline : Type 0 where
  pub started_at : ℕ
  pub established_at : Option ℕ
  pub excluded_signals : List String
  pub ipv4 : Option Ip
  pub hostname : Option String
  pub identity_category : Option String
  pub identity_manufacturer : Option String
  pub trusted : Bool
  pub inspection_at : Option ℕ
  pub unknown_present_event_id : Option ℕ
