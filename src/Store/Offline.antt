-- ===== src/Store/Offline.antt =====
-- lanfence/db.py: `devices_due_for_offline` and `mark_offline`, evaluated after a sweep.
pub mod Agree
pub mod Rows
use lan_fence.Base.{
  Bool, List, Option, String, Table, [], elem, false, if◌then◌else◌, leb, none, some, update, ℕ,
  ◌&&◌, ◌++◌, ◌+◌, ◌∷◌,
}
use lan_fence.Models.Device.{Device, DeviceEvent, disconnected, offline}
use lan_fence.Store.Coverage.{Coverage, path_covered}
use lan_fence.Store.State.{Row, Store, get_device, online_rows, record_event}

-- the arguments of both methods
pub record Sweep : Type 0 where
  pub still_online : List String
  pub as_of : ℕ
  pub grace : ℕ
  pub missed_after : ℕ
  pub coverage : Coverage

-- the two `continue`s of the loop
unfoldable pub is_missed : Sweep → String → Row → Bool
is_missed sw mac row = if elem mac sw.still_online then false else path_covered row sw.coverage

unfoldable pub is_expired : Sweep → Row → Bool
is_expired sw row =
    leb sw.missed_after (row.missed_scans + 1) && leb (row.last_seen + sw.grace) sw.as_of

abbrev add_device : Option Device → List Device → List Device
add_device none ds = ds
add_device (some d) ds = d ∷ ds

due_rows : Sweep → Store → Table Row → List Device
unfolding is_missed is_expired
due_rows sw s [] = []
due_rows sw s ((mac, row) ∷ rows) =
    let rest = due_rows sw s rows in
    if is_missed sw mac row
    then (if is_expired sw row then add_device (get_device mac s) rest else rest)
    else rest

unfoldable pub devices_due_for_offline : Sweep → Store → List Device
unfolding due_rows
devices_due_for_offline sw s = due_rows sw s (online_rows s.devices)

-- SET status = 'offline', missed_scans = 0
abbrev pub gone_row : Row → Row
gone_row r = record r { status = offline; missed_scans = 0 }

abbrev pub missed_row : ℕ → Row → Row
missed_row missed r = record r { missed_scans = missed }

abbrev pub gone_event : Sweep → String → Row → DeviceEvent
gone_event sw mac row = record {
  mac = mac;
  event_type = disconnected;
  timestamp = sw.as_of;
  ip = row.ip;
  hostname = row.hostname;
}

-- one pass of the loop over a device that was online
unfoldable pub mark_row : Sweep → String → Row → Store → Store × List DeviceEvent
unfolding is_missed is_expired
mark_row sw mac row s =
    if is_missed sw mac row
    then (if is_expired sw row
        then (
          record_event (gone_event sw mac row)
              (record s { devices = update mac gone_row s.devices }),
          gone_event sw mac row ∷ [],
        )
        else (record s { devices = update mac (missed_row (row.missed_scans + 1)) s.devices }, []))
    else (s, [])

unfoldable pub mark_rows : Sweep → Table Row → Store → Store × List DeviceEvent
mark_rows sw [] s = (s, [])
mark_rows sw ((mac, row) ∷ rows) s =
    let (s', events) = mark_row sw mac row s in
    let (s'', more) = mark_rows sw rows s' in (s'', events ++ more)

unfoldable pub mark_offline : Sweep → Store → Store × List DeviceEvent
unfolding mark_rows mark_row
mark_offline sw s = mark_rows sw (online_rows s.devices) s
