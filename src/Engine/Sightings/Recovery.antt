-- ===== src/Engine/Sightings/Recovery.antt =====
-- The end of an availability episode.
use lan_fence.Base.{
  Bool, List, Option, String, [], ap, arith, eq_iff, false, filter, if◌then◌else◌, length, lookup,
  lookup-upsert, map, none, not, or_else, refl, some, true, ℕ, ◌&&◌, ◌++◌, ◌+◌, ◌>>=◌, ◌∙◌, ◌∷◌,
  ◌≡◌,
}
use lan_fence.Engine.Findings.{build_findings, raw_findings, shown_findings, tag}
use lan_fence.Engine.Sightings.{
  Env, Sighted, conclude, hostname_of, is_reappeared, process_sighting, recovery_finding,
  sighted_device, sighting_of,
}
use lan_fence.Fingerprint.{SignatureMatch, fingerprint_device}
use lan_fence.Models.Device.{Device, EventType, disconnected, new_device, reappeared}
use lan_fence.Models.Finding.{Finding, FindingKind, availability, is_lifecycle}
use lan_fence.Store.Availability.Episodes.{alerted}
use lan_fence.Store.Evidence.{
  record_address_evidence, record_name_evidence, refresh_preferred_fields,
}
use lan_fence.Store.Observe.{Sighting, transition, write_device, write_evidence}
use lan_fence.Store.Observe.Rows.{after_observe, observe-total, observed_row}
use lan_fence.Store.Presence.{get_presence, no_presence, set_availability_alerted}
use lan_fence.Store.State.{Store, record_event, row_to_device}

abbrev pub is_availability : FindingKind → Bool
is_availability availability = true
is_availability _ = false

abbrev pub availability_count : List Finding → ℕ
availability_count fs = length (filter (λ (f : Finding). is_availability f.kind) fs)

-- nothing but the recovery is an availability finding
availability-filter :
    (p : Finding → Bool) (fs : List Finding)
    → availability_count fs ≡ 0
    → availability_count (filter p fs) ≡ 0
availability-filter p [] h = refl
availability-filter p (f ∷ fs) h = ground (arith, availability-filter p fs)

availability-tag :
    (e : EventType) (fs : List Finding)
    → availability_count (map (tag e) fs) ≡ availability_count fs
availability-tag e [] = refl
availability-tag e (f ∷ fs) = ground (arith, availability-tag e fs)

availability-raw :
    (d : Device) (e : EventType) (ms : List SignatureMatch)
    → availability_count (raw_findings d e ms) ≡ 0
unfolding raw_findings
availability-raw d new_device ms = ground arith
availability-raw d reappeared ms = ground arith
availability-raw d disconnected ms = ground arith

availability-shown :
    (d : Device) (fs : List Finding)
    → availability_count fs ≡ 0
    → availability_count (shown_findings d fs) ≡ 0
unfolding shown_findings
availability-shown d fs h =
    ground (arith, availability-filter (λ (f : Finding). not (is_lifecycle f.kind)) fs h)

availability-build :
    (d : Device) (e : Option EventType) (ms : List SignatureMatch)
    → availability_count (build_findings d e ms) ≡ 0
unfolding build_findings
availability-build d none ms = refl
availability-build d (some disconnected) ms = refl
availability-build d (some e) ms =
    availability-tag e (shown_findings d (raw_findings d e ms))
    ∙ availability-shown d (raw_findings d e ms) (availability-raw d e ms)

availability-append :
    (fs : List Finding) (f : Finding)
    → is_availability f.kind ≡ true
    → availability_count (fs ++ f ∷ []) ≡ availability_count fs + 1
availability-append [] f h = ground arith
availability-append (x ∷ xs) f h = ground (arith, availability-append xs f h)

presence-after_observe : (a : Sighting) (s : Store) → (after_observe a s).presence ≡ s.presence
unfolding after_observe write_evidence refresh_preferred_fields write_device record_name_evidence
    record_address_evidence record_event
presence-after_observe a s = ground arith

alerted-after_observe :
    (a : Sighting) (m : String) (s : Store) → alerted m (after_observe a s) ≡ alerted m s
unfolding get_presence
alerted-after_observe a m s =
    ap (λ t. (or_else (lookup m t) no_presence).availability_alerted) (presence-after_observe a s)

cleared :
    (m : String) (t : ℕ) (s : Store) → alerted m (set_availability_alerted m false t s) ≡ false
unfolding set_availability_alerted get_presence
cleared m t s =
    let p = get_presence m s in
    ground (
      arith,
      eq_iff m m,
      lookup-upsert m m
          (record {
            policy = p.policy;
            offline_after = p.offline_after;
            availability_alerted = false;
            updated_at = some t;
          })
          s.presence,
    )

concluded :
    (env : Env) (g : Sighted) (ms : List SignatureMatch) (d : Device) (e : Option EventType)
    (s : Store)
    → let (d', e', findings, s') = conclude env g ms (d, e, s) in
      (e' ≡ e)
      × (availability_count findings ≡ (if is_reappeared e && alerted g.mac s then 1 else 0))
      × (alerted g.mac s' ≡ (alerted g.mac s && not (is_reappeared e)))
unfolding conclude
concluded env g ms d e s =
    let device = sighted_device env d e ms s in
    let findings = build_findings device e ms in
    ground (
      arith,
      availability-build device e ms,
      availability-append findings (recovery_finding device) refl,
      cleared g.mac g.seen_at s,
    )

-- an answer whose transition is known to be `e`
retold :
    (r : Device × Option EventType × List Finding × Store) (e : Option EventType)
    → r.1 ≡ e
    → some r ≡ some (r.0, e, r.2, r.3)
retold r e h = ground arith

-- `process_sighting` always returns, and reports the transition that the row on record calls for.
-- It adds one availability finding exactly when a device reappears in an episode that was alerted
-- on, and then the episode is over; otherwise it adds none and the episode stays as it was.
pub process_sighting-recovery :
    (env : Env) (g : Sighted) (s : Store)
    → (device : Device) × (e : Option EventType) × (findings : List Finding) × (s' : Store)
      × (process_sighting env g s ≡ some (device, e, findings, s'))
      × (e ≡ transition (lookup g.mac s.devices))
      × (availability_count findings ≡ (if is_reappeared e && alerted g.mac s then 1 else 0))
      × (alerted g.mac s' ≡ (alerted g.mac s && not (is_reappeared e)))
unfolding process_sighting sighting_of
process_sighting-recovery env g s =
    let a = sighting_of env g in
    let ms = (fingerprint_device env.vendor_of env.signatures g.mac (hostname_of env g).0).1 in
    let e = transition (lookup g.mac s.devices) in
    let d = row_to_device g.mac (observed_row a s) in
    let r = conclude env g ms (d, e, after_observe a s) in
    let c = concluded env g ms d e (after_observe a s) in
    let kept = alerted-after_observe a g.mac s in
    (
      r.0,
      e,
      r.2,
      r.3,
      ap (λ o. o >>= λ r. some (conclude env g ms r)) (observe-total a s) ∙ retold r e c.0,
      refl,
      c.1 ∙ ap (λ b. if is_reappeared e && b then 1 else 0) kept,
      c.2 ∙ ap (λ b. b && not (is_reappeared e)) kept,
    )
