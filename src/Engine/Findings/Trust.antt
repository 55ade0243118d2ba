-- ===== src/Engine/Findings/Trust.antt =====
-- Severities of the findings about trusted and about returning devices.
use lan_fence.Base.{
  All, Bool, Bool-cases, List, [], any, arith, filter, inl, inr, map, not, refl, some, true, ◌∷◌,
  ◌≡◌,
}
use lan_fence.Engine.Findings.{build_findings, raw_findings, shown_findings, tag}
use lan_fence.Fingerprint.{SignatureMatch}
use lan_fence.Models.Device.{
  Device, EventType, disconnected, is_intermittent, new_device, reappeared,
}
use lan_fence.Models.Finding.{Finding, is_lifecycle}
use lan_fence.Models.Severity.{Severity, info, severity_eq}

abbrev pub HasSeverity : Severity → List Finding → Type 0
HasSeverity v fs = All (λ (f : Finding). f.severity ≡ v) fs

HasSeverity-filter :
    (v : Severity) (p : Finding → Bool) (fs : List Finding)
    → HasSeverity v fs
    → HasSeverity v (filter p fs)
HasSeverity-filter v p [] h = tt
HasSeverity-filter v p (f ∷ fs) h = ground (arith, HasSeverity-filter v p fs h.1)

HasSeverity-shown :
    (v : Severity) (d : Device) (fs : List Finding)
    → HasSeverity v fs
    → HasSeverity v (shown_findings d fs)
unfolding shown_findings
HasSeverity-shown v d fs h = elim (Bool-cases (is_intermittent d.presence_policy)) [
  | inl e ↦ rw e (HasSeverity-filter v (λ (f : Finding). not (is_lifecycle f.kind)) fs h)
  | inr e ↦ rw e h
]

HasSeverity-tag :
    (v : Severity) (e : EventType) (fs : List Finding)
    → HasSeverity v fs
    → HasSeverity v (map (tag e) fs)
HasSeverity-tag v e [] h = tt
HasSeverity-tag v e (f ∷ fs) h = (h.0, HasSeverity-tag v e fs h.1)

HasSeverity-build :
    (v : Severity) (d : Device) (e : EventType) (ms : List SignatureMatch)
    → HasSeverity v (raw_findings d e ms)
    → HasSeverity v (build_findings d (some e) ms)
unfolding build_findings
HasSeverity-build v d new_device ms h =
    HasSeverity-tag v new_device (shown_findings d (raw_findings d new_device ms))
      (HasSeverity-shown v d (raw_findings d new_device ms) h)
HasSeverity-build v d reappeared ms h =
    HasSeverity-tag v reappeared (shown_findings d (raw_findings d reappeared ms))
      (HasSeverity-shown v d (raw_findings d reappeared ms) h)
HasSeverity-build v d disconnected ms h = tt

-- Every finding about a device on the allowlist is `info`, whatever its signatures.
pub build_findings-trusted :
    (d : Device) (e : EventType) (ms : List SignatureMatch)
    → d.allowlisted ≡ true
    → HasSeverity info (build_findings d (some e) ms)
build_findings-trusted d e ms h =
    HasSeverity-build info d e ms (unfold raw_findings in rw h (refl, tt))

abbrev pub has_severity : Severity → List SignatureMatch → Bool
has_severity v ms = any (λ (m : SignatureMatch). severity_eq m.severity v) ms

abbrev is_security : Finding → Bool
is_security f = not (is_lifecycle f.kind)

-- a finding that is more than the announcement of a routine return
abbrev pub has_security : List Finding → Bool
has_security fs = any is_security fs
