-- ===== src/Store/Observe/Rows.antt =====
-- What `observe` does to the rows of `devices`, and that its assertion never fails.
use mathlib.Core.Path.{subst}
use Prim.Native.Nat.{max}
use lan_fence.Base.{
  Bool, IsKeyed, Option, String, arith, eq_iff, false, if◌then◌else◌, lookup, lookup-update,
  lookup-upsert, none, refl, some, str_eq, sym, update-IsKeyed, upsert-IsKeyed, ℕ, ◌||◌, ◌∙◌, ◌≡◌,
}
use lan_fence.Models.Device.{EventType, Ip, NameSource, online}
use lan_fence.Store.Evidence.{
  prefer, preferred_address, preferred_name, record_address_evidence, record_name_evidence,
  refresh_preferred_fields,
}
use lan_fence.Store.Observe.{
  Sighting, address_step, event_step, is_ipv4, is_ipv6, name_step, observe, transition,
  write_device, write_evidence, written_row,
}
use lan_fence.Store.State.{Row, Store, get_device, record_event, row_to_device}

-- what the row on record said
abbrev pub last_seen_of : Option Row → ℕ
last_seen_of none = 0
last_seen_of (some r) = r.last_seen

abbrev pub first_seen_of : ℕ → Option Row → ℕ
first_seen_of now none = now
first_seen_of now (some r) = r.first_seen

abbrev pub known_ipv4 : Option Row → Bool
known_ipv4 none = false
known_ipv4 (some r) = r.seen_via_ipv4

abbrev pub known_ipv6 : Option Row → Bool
known_ipv6 none = false
known_ipv6 (some r) = r.seen_via_ipv6

-- the state of the database when `observe` returns
unfoldable pub after_observe : Sighting → Store → Store
after_observe a s =
    event_step a (transition (lookup a.mac s.devices)) (write_evidence a (write_device a s))

devices-address_step :
    (a : Sighting) (ip : Option Ip) (s : Store) → (address_step a ip s).devices ≡ s.devices
unfolding record_address_evidence
devices-address_step a ip s = ground arith

devices-name_step :
    (a : Sighting) (name : Option String) (source : Option NameSource) (s : Store)
    → (name_step a name source s).devices ≡ s.devices
unfolding record_name_evidence
devices-name_step a name source s = ground arith

-- the preferred address and name when `observe` has recorded its evidence
abbrev evidence_of : Sighting → Store → Store
evidence_of a s = name_step a a.hostname a.hostname_source (address_step a a.ip s)

devices-evidence_of : (a : Sighting) (s : Store) → (evidence_of a s).devices ≡ s.devices
devices-evidence_of a s =
    devices-name_step a a.hostname a.hostname_source (address_step a a.ip s)
    ∙ devices-address_step a a.ip s

-- The row of the device that was seen, with its preferred address and name.
unfoldable pub observed_row : Sighting → Store → Row
observed_row a s =
    let r = written_row a (lookup a.mac s.devices) in
    let e = evidence_of a (write_device a s) in
    prefer (preferred_address a.mac e) (preferred_name a.mac e) r

lookup-write_device :
    (a : Sighting) (m : String) (s : Store)
    → lookup m (write_device a s).devices ≡ (
        if str_eq m a.mac
        then some (written_row a (lookup a.mac s.devices))
        else lookup m s.devices)
unfolding write_device
lookup-write_device a m s = lookup-upsert a.mac m (written_row a (lookup a.mac s.devices)) s.devices

lookup-write_evidence :
    (a : Sighting) (m : String) (s : Store)
    → lookup m (write_evidence a (write_device a s)).devices
      ≡ (if str_eq m a.mac then some (observed_row a s) else lookup m s.devices)
unfolding write_evidence refresh_preferred_fields observed_row
lookup-write_evidence a m s =
    let w = write_device a s in
    let e : Store = evidence_of a w in
    let f : Row → Row = prefer (preferred_address a.mac e) (preferred_name a.mac e) in
    lookup-update a.mac m f e.devices
    ∙ rw devices-evidence_of (ground (arith, lookup-write_device a m s))

devices-event_step :
    (a : Sighting) (e : Option EventType) (s : Store) → (event_step a e s).devices ≡ s.devices
unfolding record_event
devices-event_step a none s = refl
devices-event_step a (some e) s = refl

-- After a sighting the row of its device is the one just observed, and no other row has changed.
pub lookup-after_observe :
    (a : Sighting) (m : String) (s : Store)
    → lookup m (after_observe a s).devices
      ≡ (if str_eq m a.mac then some (observed_row a s) else lookup m s.devices)
unfolding after_observe
lookup-after_observe a m s = rw devices-event_step (lookup-write_evidence a m s)

-- `observe` always returns: its assertion that the device is in the database holds. It returns the
-- device of the observed row, and the transition is decided by the row before the sighting.
pub observe-total :
    (a : Sighting) (s : Store)
    → observe a s
      ≡ some (
        row_to_device a.mac (observed_row a s),
        transition (lookup a.mac s.devices),
        after_observe a s,
      )
unfolding observe after_observe get_device
observe-total a s = ground (arith, lookup-write_evidence a a.mac s, eq_iff a.mac a.mac)

-- What a sighting establishes of the device's row, whatever was on record: the device is online
-- with no missed sweep, it was last seen at the later of the two times, its first sighting and the
-- paths by which it is known are kept, and the sighting's path is added.
pub observed_row-live :
    (a : Sighting) (s : Store)
    → let r = observed_row a s in
      (r.status ≡ online)
      × (r.missed_scans ≡ 0)
      × (r.last_seen ≡ max a.seen_at (last_seen_of (lookup a.mac s.devices)))
      × (r.first_seen ≡ first_seen_of a.seen_at (lookup a.mac s.devices))
      × (r.seen_via_ipv4 ≡ (known_ipv4 (lookup a.mac s.devices) || is_ipv4 a.ip))
      × (r.seen_via_ipv6 ≡ (known_ipv6 (lookup a.mac s.devices) || is_ipv6 a.ip))
unfolding observed_row
observed_row-live a s = ground arith

pub after_observe-IsKeyed :
    (a : Sighting) (s : Store) → IsKeyed s.devices → IsKeyed (after_observe a s).devices
unfolding after_observe write_evidence refresh_preferred_fields write_device
after_observe-IsKeyed a s h =
    let w = write_device a s in
    let e : Store = evidence_of a w in
    subst IsKeyed
      (sym (devices-event_step a (transition (lookup a.mac s.devices)) (write_evidence a w)))
      (update-IsKeyed a.mac (prefer (preferred_address a.mac e) (preferred_name a.mac e)) e.devices
        (subst IsKeyed (sym (devices-evidence_of a w))
          (upsert-IsKeyed a.mac (written_row a (lookup a.mac s.devices)) s.devices h)))
