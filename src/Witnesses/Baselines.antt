-- ===== src/Witnesses/Baselines.antt =====
-- Runs of the comparison with a baseline.
use lan_fence.Base.{All, [], any, false, length, none, refl, some, true, ◌∷◌, ◌≡◌}
use lan_fence.Baseline.{
  Comparison, Observed, compare_items, judge_absences, judge_signal, judge_values,
}
use lan_fence.Baseline.Ingest.{Detection, record_detected}
use lan_fence.Baseline.Learning.{compare_items-approved, is_approved_item}
use lan_fence.Baseline.Reports.{compare_items-reports, is_report}
use lan_fence.Baseline.Scalars.{
  Subject, is_unknown_present, judge_address, judge_hostname, judge_identity, judge_learning,
  judge_trust, judge_unknown,
}
use lan_fence.Baseline.Scalars.Once.{compare_known-settled}
use lan_fence.Baseline.Whole.{compare_known, judge_scalars, record_all}
use lan_fence.Changes.{is_admin_service}
use lan_fence.Models.Baseline.{BaselineItem, BaselineSignal, DeviceBaseline, Origin}
use lan_fence.Models.Device.{PresencePolicyName, ReviewStateName, Status, v4}
use lan_fence.Store.Changelog.{record_change_event}
use lan_fence.Text.{lower}
use lan_fence.Witnesses.Data.{mac_a}

-- a device that is still being learned, known by its web server, now also shows SSH
abbrev web_server : BaselineItem
web_server = record {
  signal = BaselineSignal.port;
  value = "tcp/80";
  in_baseline = true;
  origin = Origin.initial;
  present = true;
  first_seen = 5;
  last_seen = 5;
  removed_at = none;
}

abbrev young : Comparison
young = record {
  mac = mac_a;
  now = 100;
  learning = true;
  trusted = true;
  server_like = true;
  is_present = true;
  fresh = true;
  excluded = [];
  service_removal = 3600;
  cap = 200;
}

abbrev two_ports : Observed
two_ports = record {
  ports = "tcp/22" ∷ "tcp/80" ∷ [];
  mdns_types = [];
  ssdp_types = [];
  prefixes = [];
}

compare_items-approved_example :
    All
      (λ (i : BaselineItem). is_approved_item young (web_server ∷ []) i ≡ true)
      (compare_items young two_ports (web_server ∷ [])).items
compare_items-approved_example = compare_items-approved young two_ports (web_server ∷ [])

compare_items-reports_example :
    any
      (is_report BaselineSignal.port "tcp/22")
      (compare_items young two_ports (web_server ∷ [])).recorded
    ≡ true
unfolding is_admin_service
compare_items-reports_example =
    compare_items-reports young two_ports (web_server ∷ []) BaselineSignal.port "tcp/22" refl refl
      refl refl

-- a device whose address, name, maker and trust have changed, against what was learned of it
abbrev changed_subject : Subject
changed_subject = record {
  device = record {
    mac = "aa:bb:cc:00:00:01";
    ip = none;
    ipv4 = some (record { text = "10.0.0.9"; address = v4 167772169 });
    ipv6 = none;
    hostname = some "Desk";
    vendor = none;
    status = Status.online;
    first_seen = 1;
    last_seen = 200;
    allowlisted = true;
    allowlist_name = none;
    fingerprints = [];
    review_state = ReviewStateName.pending;
    review_notes = none;
    snoozed_until = none;
    presence_policy = PresencePolicyName.unspecified;
    offline_after = none;
    metadata = none;
  };
  identity = record {
    category = "Printer";
    manufacturer = some "Acme";
    family = none;
    platform = none;
    confidence = 60;
    evidence = [];
  };
  inspection_at = none;
  effective_category = "Printer";
  now = 200;
  watching_since = none;
  learning_time = 50;
  unknown_time = 60;
  service_removal = 10;
  max_items = 200;
}

abbrev known_before : DeviceBaseline
known_before = record {
  started_at = 100;
  established_at = none;
  excluded_signals = [];
  ipv4 = some (record { text = "192.168.1.5"; address = v4 3232235781 });
  hostname = some "laptop";
  identity_category = some "Laptop";
  identity_manufacturer = some "Other";
  trusted = false;
  inspection_at = none;
  unknown_present_event_id = none;
}

abbrev no_services : Observed
no_services = record { ports = []; mdns_types = []; ssdp_types = []; prefixes = [] }

abbrev quiet_run : Detection
quiet_run = record {
  recorded = [];
  log = record {
    rows = [];
    seq = 0;
    cursors = [];
    max_change_events = 10;
    retention = 86400000000;
  };
}

-- the first comparison tells five changes
five_changes :
    length (compare_known changed_subject no_services known_before [] quiet_run).0.1.recorded ≡ 5
unfolding compare_known compare_items judge_signal judge_values judge_absences judge_scalars
    judge_learning judge_address judge_hostname judge_identity judge_trust judge_unknown record_all
    record_detected record_change_event is_unknown_present lower
five_changes = refl

compare_known-settled_example :
    let b' = (compare_known changed_subject no_services known_before [] quiet_run).0.0 in
    (judge_learning changed_subject b' quiet_run ≡ (b', quiet_run))
    × (judge_scalars changed_subject false b' quiet_run ≡ (b', quiet_run))
compare_known-settled_example =
    compare_known-settled changed_subject no_services false known_before [] quiet_run quiet_run
