-- ===== src/Store/Lifecycle/Sightings.antt =====
-- A sighting keeps the lifecycle consistent.
use lan_fence.Base.{
  List, Option, String, [], ap, arith, eq_iff, if◌then◌else◌, lookup, none, some, str_eq, true,
  ◌++◌, ◌+◌, ◌∙◌, ◌∷◌, ◌≡◌,
}
use lan_fence.Models.Device.{EventType, Ip, NameSource, online}
use lan_fence.Store.Evidence.{
  record_address_evidence, record_name_evidence, refresh_preferred_fields,
}
use lan_fence.Store.Lifecycle.{IsConsistent, accepts, final, row_status, status_after, timeline}
use lan_fence.Store.Lifecycle.Timeline.{accepts-append, final-append, timeline-append}
use lan_fence.Store.Observe.{
  Sighting, address_step, event_step, name_step, transition, write_device, write_evidence,
}
use lan_fence.Store.Observe.Rows.{
  after_observe, after_observe-IsKeyed, lookup-after_observe, observed_row-live,
}
use lan_fence.Store.State.{Row, Store, record_event}

events-address_step :
    (a : Sighting) (ip : Option Ip) (s : Store) → (address_step a ip s).events ≡ s.events
unfolding record_address_evidence
events-address_step a ip s = ground arith

events-name_step :
    (a : Sighting) (name : Option String) (source : Option NameSource) (s : Store)
    → (name_step a name source s).events ≡ s.events
unfolding record_name_evidence
events-name_step a name source s = ground arith

events-write_evidence :
    (a : Sighting) (s : Store) → (write_evidence a (write_device a s)).events ≡ s.events
unfolding write_evidence refresh_preferred_fields write_device
events-write_evidence a s =
    events-name_step a a.hostname a.hostname_source (address_step a a.ip (write_device a s))
    ∙ events-address_step a a.ip (write_device a s)

-- the timeline of a device after the event, if there is one
abbrev told : Option EventType → List EventType → List EventType
told none es = es
told (some e) es = es ++ e ∷ []

timeline-event_step :
    (a : Sighting) (e : Option EventType) (m : String) (s : Store)
    → timeline m (event_step a e s).events
      ≡ (if str_eq m a.mac then told e (timeline m s.events) else timeline m s.events)
unfolding record_event
timeline-event_step a none m s = ground arith
timeline-event_step a (some e) m s = timeline-append m s.events (record {
  id = s.event_seq + 1;
  event = record {
    mac = a.mac;
    event_type = e;
    timestamp = a.seen_at;
    ip = a.ip;
    hostname = a.hostname;
  };
})

timeline-after_observe :
    (a : Sighting) (m : String) (s : Store)
    → timeline m (after_observe a s).events ≡ (
        if str_eq m a.mac
        then told (transition (lookup a.mac s.devices)) (timeline m s.events)
        else timeline m s.events)
unfolding after_observe
timeline-after_observe a m s =
    let e : Option EventType = transition (lookup a.mac s.devices) in
    timeline-event_step a e m (write_evidence a (write_device a s))
    ∙ ap (λ rs. if str_eq m a.mac then told e (timeline m rs) else timeline m rs)
        (events-write_evidence a s)

-- What a sighting reports is the next legal event, and leads to `online`.
told_lawful :
    (o : Option Row) (es : List EventType)
    → row_status o ≡ status_after (final none es)
    → accepts none es ≡ true
    → (accepts none (told (transition o) es) ≡ true)
      × (status_after (final none (told (transition o) es)) ≡ some online)
told_lawful none es agrees lawful =
    ground (
      arith,
      accepts-append none es EventType.new_device,
      final-append none es EventType.new_device,
    )
told_lawful (some r) es agrees lawful =
    ground (
      arith,
      accepts-append none es EventType.reappeared,
      final-append none es EventType.reappeared,
    )

pub after_observe-IsConsistent :
    (a : Sighting) (s : Store) → IsConsistent s → IsConsistent (after_observe a s)
after_observe-IsConsistent a s h = record {
  keyed = after_observe-IsKeyed a s h.keyed;
  is_lawful = λ m. ground (
    arith,
    eq_iff m a.mac,
    timeline-after_observe a m s,
    told_lawful (lookup a.mac s.devices) (timeline a.mac s.events),
    h.status_agrees a.mac,
    h.is_lawful a.mac,
    h.is_lawful m,
  );
  status_agrees = λ m. ground (
    arith,
    eq_iff m a.mac,
    lookup-after_observe a m s,
    observed_row-live a s,
    timeline-after_observe a m s,
    told_lawful (lookup a.mac s.devices) (timeline a.mac s.events),
    h.status_agrees a.mac,
    h.is_lawful a.mac,
    h.status_agrees m,
  );
}
