-- ===== src/Engine/Findings.antt =====
-- lanfence/engine.py: the findings about one device's lifecycle transition.
pub mod Trust
pub mod Suppression
use lan_fence.Base.{
  Bool, List, Option, String, [], false, filter, if◌then◌else◌, ltb, map, none, not, some, str_eq,
  true, ◌++◌, ◌∷◌,
}
use lan_fence.Fingerprint.{SignatureMatch}
use lan_fence.Models.Change.{ChangeType}
use lan_fence.Models.Device.{
  Device, DeviceMetadata, EventType, Ip, disconnected, is_intermittent, new_device, reappeared,
}
use lan_fence.Models.Finding.{Finding, FindingKind, is_lifecycle, lifecycle, security}
use lan_fence.Models.Severity.{Severity, high, info, medium, rank, severity_eq}
use lan_fence.Text.{join_spaces, or_text, repr, ◌+++◌}

-- a finding with the fields that the model leaves at their defaults
abbrev pub finding :
    String → String → Severity → FindingKind → String → String → List String → Finding
finding mac title severity kind rationale recommendation evidence = record {
  mac = some mac;
  title = title;
  severity = severity;
  rationale = rationale;
  recommendation = recommendation;
  evidence = evidence;
  kind = kind;
  subject_id = none;
  change_type = none;
  policy_id = none;
  change_event_id = none;
  cooldown = none;
  cooldown_key = none;
}

-- the first of the highest severity, from the best so far
top_from : Severity → List SignatureMatch → Severity
top_from best [] = best
top_from best (m ∷ ms) =
    top_from (if ltb (rank best) (rank m.severity) then m.severity else best) ms

unfoldable pub top_severity : List SignatureMatch → Option Severity
unfolding top_from
top_severity [] = none
top_severity (m ∷ ms) = some (top_from m.severity ms)

abbrev pub ip_text : Option Ip → Option String
ip_text none = none
ip_text (some ip) = some ip.text

abbrev or_unknown : Option String → String
or_unknown none = "[unknown]"
or_unknown (some s) = or_text s "[unknown]"

abbrev line_if : String → Option String → List String
line_if label none = []
line_if label (some s) = if str_eq s "" then [] else (label +++ s) ∷ []

abbrev metadata_lines : Option DeviceMetadata → List String
metadata_lines none = []
metadata_lines (some m) = line_if "Owner: " m.owner ++ line_if "Location: " m.location

-- `name or mac`
abbrev pub name_or : Option String → String → String
name_or none mac = mac
name_or (some name) mac = or_text name mac

unfoldable pub device_evidence_lines :
    String
    → Option String
    → Option String
    → Option String
    → Bool
    → Option String
    → Option DeviceMetadata
    → List String
device_evidence_lines mac ip hostname vendor allowlisted allowlist_name metadata =
    (if allowlisted then ("Name: " +++ name_or allowlist_name mac) ∷ [] else [])
    ++ (("MAC: " +++ mac)
        ∷ ("IP: " +++ or_unknown ip)
        ∷ ("Hostname: " +++ or_unknown hostname)
        ∷ ("Vendor: " +++ or_unknown vendor)
        ∷ metadata_lines metadata)

abbrev pub device_lines : Device → List String
device_lines d =
    device_evidence_lines d.mac (ip_text d.ip) d.hostname d.vendor d.allowlisted d.allowlist_name
      d.metadata

abbrev descriptions : List SignatureMatch → String
descriptions ms = join_spaces (map (λ (m : SignatureMatch). m.description) ms)

abbrev evidences : List SignatureMatch → List String
evidences ms = map (λ (m : SignatureMatch). m.evidence) ms

abbrev pub as_change : EventType → ChangeType
as_change new_device = ChangeType.new_device
as_change reappeared = ChangeType.reappeared
as_change disconnected = ChangeType.disconnected

abbrev pub is_new : EventType → Bool
is_new new_device = true
is_new _ = false

abbrev severity_or : Option Severity → Severity → Severity
severity_or none s = s
severity_or (some t) s = t

abbrev pub is_high : Option Severity → Bool
is_high none = false
is_high (some s) = severity_eq s high

-- the branch `if device.allowlisted`
trusted_findings : Device → EventType → String → List String → List Finding
trusted_findings d e rationale evidence =
    let label = name_or d.allowlist_name d.mac in
    finding d.mac
      (if is_new e
        then "New allowlisted device connected: " +++ label
        else "Allowlisted device reappeared: " +++ label)
      info (if is_new e then security else lifecycle)
      ("This MAC is on your allowlist as " +++ repr label +++ ". " +++ rationale)
      "No action needed - this device is trusted." evidence
    ∷ []

-- the branch `elif event_type == "new_device"`
unknown_findings : Device → Option Severity → String → List String → List Finding
unknown_findings d top rationale evidence =
    finding d.mac "Unknown device connected" (severity_or top medium) security rationale
      ("Verify this device belongs on your network. If it's yours, run " +++ "`lanfence allow "
        +++ d.mac +++ "` to stop future alerts about it.")
      evidence
    ∷ []

-- the last branch: reappeared, not allowlisted
returned_findings : Device → Option Severity → List SignatureMatch → List String → List Finding
returned_findings d top ms evidence =
    let routine =
      finding d.mac "Previously seen (non-allowlisted) device reappeared" info lifecycle
        "This device was seen before and was not on your allowlist."
        ("If it's yours, run `lanfence allow " +++ d.mac +++ "`; otherwise investigate.")
        evidence in
    let high_matches = filter (λ (m : SignatureMatch). severity_eq m.severity high) ms in
    let rogue =
      finding d.mac "Rogue-device signature matched on reappearance" high security
        (descriptions high_matches)
        "Investigate this device - a known rogue-device signature matched."
        (evidence ++ evidences high_matches) in
    if is_high top then rogue ∷ routine ∷ [] else routine ∷ []

-- the findings before the presence policy is applied
unfoldable pub raw_findings : Device → EventType → List SignatureMatch → List Finding
unfolding trusted_findings unknown_findings returned_findings
raw_findings d e ms =
    let top = top_severity ms in
    let evidence = device_lines d ++ evidences ms in
    let rationale =
      or_text (descriptions ms)
        "No built-in fingerprint signature matched this device; its identity is unverified." in
    if d.allowlisted
    then trusted_findings d e rationale evidence
    else if is_new e
    then unknown_findings d top rationale evidence
    else returned_findings d top ms evidence

unfoldable pub shown_findings : Device → List Finding → List Finding
shown_findings d fs =
    if is_intermittent d.presence_policy
    then filter (λ (f : Finding). not (is_lifecycle f.kind)) fs
    else fs

abbrev pub tag : EventType → Finding → Finding
tag e f = record f { change_type = some (as_change e) }

unfoldable pub build_findings : Device → Option EventType → List SignatureMatch → List Finding
unfolding raw_findings shown_findings
build_findings d none ms = []
build_findings d (some disconnected) ms = []
build_findings d (some e) ms = map (tag e) (shown_findings d (raw_findings d e ms))
