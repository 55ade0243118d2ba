-- ===== src/Store/Offline/Rows.antt =====
-- What `mark_offline` does to the row of each device.
use mathlib.Core.Option
use lan_fence.Base.{
  Bool, IsKeyed, Option, String, Table, [], ap, arith, elem, eq_iff, filter-IsKeyed, if◌then◌else◌,
  leb, lookup, lookup-filter, lookup-update, none, not, refl, some, str_eq, ◌&&◌, ◌+◌, ◌∙◌, ◌∷◌,
  ◌≡◌,
}
use lan_fence.Models.Device.{is_online, offline}
use lan_fence.Store.Coverage.{path_covered}
use lan_fence.Store.Offline.{
  Sweep, gone_row, is_expired, is_missed, mark_offline, mark_row, mark_rows, missed_row,
}
use lan_fence.Store.State.{Row, Store, online_rows, record_event}

-- the change of a device that was online, as `mark_row` makes it
abbrev marked : Sweep → String → Row → Row → Row
marked sw mac row r =
    if is_missed sw mac row
    then (if is_expired sw row then gone_row r else missed_row (row.missed_scans + 1) r)
    else r

-- The device was online, the sweep did not find it, and it examined all its known paths.
abbrev is_absent : Sweep → String → Row → Bool
is_absent sw mac r =
    is_online r.status && not (elem mac sw.still_online) && path_covered r sw.coverage

-- With this sweep its misses and the time since its last sighting both reach the limits.
abbrev is_long_gone : Sweep → Row → Bool
is_long_gone sw r =
    leb sw.missed_after (r.missed_scans + 1) && leb (r.last_seen + sw.grace) sw.as_of

-- The row of one device after a sweep. An absent device that is long gone goes offline, for
-- another absent one the miss is counted, and any other row stays.
abbrev pub swept : Sweep → String → Row → Row
swept sw mac r =
    if is_absent sw mac r
    then record r {
      status = if is_long_gone sw r then offline else r.status;
      missed_scans = if is_long_gone sw r then 0 else r.missed_scans + 1;
    }
    else r

abbrev marked_online : Sweep → String → Row → Row
marked_online sw mac r = if is_online r.status then marked sw mac r r else r

swept_lem : (sw : Sweep) (mac : String) (r : Row) → marked_online sw mac r ≡ swept sw mac r
unfolding is_missed is_expired
swept_lem sw mac r = ground arith

abbrev marked_by : Sweep → String → Option Row → Option Row → Option Row
marked_by sw mac none o = o
marked_by sw mac (some row) o = Option.map (marked sw mac row) o

lookup-mark_row :
    (sw : Sweep) (mac m : String) (row : Row) (s : Store)
    → lookup m (mark_row sw mac row s).0.devices ≡ (
        if str_eq m mac
        then Option.map (marked sw mac row) (lookup m s.devices)
        else lookup m s.devices)
unfolding mark_row record_event
lookup-mark_row sw mac m row s = ground (
  arith,
  lookup-update mac m gone_row s.devices,
  lookup-update mac m (missed_row (row.missed_scans + 1)) s.devices,
)

lookup-mark_rows :
    (sw : Sweep) (m : String) (rows : Table Row) (s : Store)
    → IsKeyed rows
    → lookup m (mark_rows sw rows s).0.devices ≡ marked_by sw m (lookup m rows) (lookup m s.devices)
unfolding mark_rows lookup
lookup-mark_rows sw m [] s h = refl
lookup-mark_rows sw m ((mac, row) ∷ rows) s h = ground (
  arith,
  eq_iff m mac,
  lookup-mark_row sw mac m row s,
  lookup-mark_rows sw m rows (mark_row sw mac row s).0 h.1,
)

marked_online-mark_offline :
    (sw : Sweep) (m : String) (s : Store)
    → IsKeyed s.devices
    → lookup m (mark_offline sw s).0.devices ≡ Option.map (marked_online sw m) (lookup m s.devices)
unfolding mark_offline
marked_online-mark_offline sw m s h = ground (
  arith,
  lookup-mark_rows sw m (online_rows s.devices) s
      (filter-IsKeyed (λ (r : Row). is_online r.status) s.devices h),
  lookup-filter (λ (r : Row). is_online r.status) m s.devices h,
)

map-swept :
    (sw : Sweep) (m : String) (o : Option Row)
    → Option.map (marked_online sw m) o ≡ Option.map (swept sw m) o
map-swept sw m none = refl
map-swept sw m (some r) = ap some (swept_lem sw m r)

-- In a database with one row for each MAC, `mark_offline` adds no device, removes none, and changes
-- exactly the rows of those that were online, that the sweep did not find and whose known paths it
-- examined: the device goes offline with no misses once its misses and the time since its last
-- sighting both reach the limits, and before that one more miss is counted.
pub lookup-mark_offline :
    (sw : Sweep) (m : String) (s : Store)
    → IsKeyed s.devices
    → lookup m (mark_offline sw s).0.devices ≡ Option.map (swept sw m) (lookup m s.devices)
lookup-mark_offline sw m s h =
    marked_online-mark_offline sw m s h ∙ map-swept sw m (lookup m s.devices)
