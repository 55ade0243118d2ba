-- ===== src/Engine/Findings/Suppression.antt =====
-- What the presence policy `intermittent` suppresses, and what it never does.
use lan_fence.Base.{
  Bool, List, Option, [], any, arith, eq_iff, false, filter, map, none, not, opt_str_eq, refl, some,
  true, ◌&&◌, ◌∷◌, ◌≡◌,
}
use lan_fence.Engine.Findings.{build_findings, raw_findings, shown_findings, tag, top_severity}
use lan_fence.Fingerprint.{SignatureMatch}
use lan_fence.Models.Device.{
  Device, EventType, PresencePolicyName, disconnected, intermittent, is_intermittent, new_device,
  reappeared,
}
use lan_fence.Models.Finding.{Finding, FindingKind, is_lifecycle, security}
use lan_fence.Models.Severity.{Severity, high, medium, severity_eq}

abbrev pub with_policy : PresencePolicyName → Device → Device
with_policy p d = record d { presence_policy = p }

abbrev pub not_lifecycle : Finding → Bool
not_lifecycle f = not (is_lifecycle f.kind)

filter-map-tag :
    (e : EventType) (fs : List Finding)
    → map (tag e) (filter not_lifecycle fs) ≡ filter not_lifecycle (map (tag e) fs)
filter-map-tag e [] = refl
filter-map-tag e (f ∷ fs) = ground (arith, filter-map-tag e fs)

raw-with_policy :
    (p q : PresencePolicyName) (d : Device) (e : EventType) (ms : List SignatureMatch)
    → raw_findings (with_policy p d) e ms ≡ raw_findings (with_policy q d) e ms
unfolding raw_findings
raw-with_policy p q d e ms = refl

-- A device that comes and goes has exactly the findings that it would have under any other
-- policy, less the routine announcements: no other finding is suppressed, added or changed.
pub build_findings-intermittent :
    (p : PresencePolicyName) (d : Device) (e : Option EventType) (ms : List SignatureMatch)
    → is_intermittent p ≡ false
    → build_findings (with_policy intermittent d) e ms
      ≡ filter not_lifecycle (build_findings (with_policy p d) e ms)
unfolding build_findings shown_findings
build_findings-intermittent p d none ms h = refl
build_findings-intermittent p d (some disconnected) ms h = refl
build_findings-intermittent p d (some e) ms h = rw h (
    rw (raw-with_policy intermittent p d e ms)
      (filter-map-tag e (raw_findings (with_policy p d) e ms)))

abbrev pub is_security : FindingKind → Bool
is_security security = true
is_security _ = false

-- whether there is a security finding of this severity about the device
abbrev pub warns : Severity → Device → List Finding → Bool
warns v d = any (λ (f : Finding).
    is_security f.kind && severity_eq f.severity v && opt_str_eq f.mac (some d.mac))

-- Whatever its policy, a device not on the allowlist whose highest signature is `high` raises a
-- `high` security finding, both when it is discovered and when it reappears.
pub build_findings-warns_high :
    (d : Device) (ms : List SignatureMatch)
    → d.allowlisted ≡ false
    → top_severity ms ≡ some high
    → (warns high d (build_findings d (some new_device) ms) ≡ true)
      × (warns high d (build_findings d (some reappeared) ms) ≡ true)
unfolding build_findings shown_findings raw_findings
build_findings-warns_high d ms h top =
    rw (h, top) (ground (arith, eq_iff d.mac d.mac), ground (arith, eq_iff d.mac d.mac))

-- Whatever its policy, a device that is not on the allowlist and has no signature raises a `medium`
-- security finding when it is discovered.
pub build_findings-warns_unknown :
    (d : Device) (ms : List SignatureMatch)
    → d.allowlisted ≡ false
    → top_severity ms ≡ none
    → warns medium d (build_findings d (some new_device) ms) ≡ true
unfolding build_findings shown_findings raw_findings
build_findings-warns_unknown d ms h top = rw (h, top) (ground (arith, eq_iff d.mac d.mac))
