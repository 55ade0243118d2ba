-- ===== src/Store/Offline/Agree.antt =====
-- The promise of `devices_due_for_offline`: the devices that `mark_offline` would mark.
use lan_fence.Base.{
  AllFound, AllFound-filter, AllFound-self, String, Table, [], arith, map, refl, ◌∷◌, ◌≡◌,
}
use lan_fence.Models.Device.{Device, DeviceEvent}
use lan_fence.Store.Offline.{
  Sweep, devices_due_for_offline, due_rows, mark_offline, mark_row, mark_rows,
}
use lan_fence.Store.State.{Row, Store, get_device, online_rows}

abbrev pub device_mac : Device → String
device_mac d = d.mac

abbrev pub event_mac : DeviceEvent → String
event_mac e = e.mac

due_rows-mark_rows :
    (sw : Sweep) (s s' : Store) (rows : Table Row)
    → AllFound s.devices rows
    → map event_mac (mark_rows sw rows s').1 ≡ map device_mac (due_rows sw s rows)
unfolding due_rows mark_rows mark_row get_device
due_rows-mark_rows sw s s' [] h = refl
due_rows-mark_rows sw s s' ((mac, row) ∷ rows) h =
    ground (arith, h.0, due_rows-mark_rows sw s (mark_row sw mac row s').0 rows h.1)

-- With the same arguments and database, the devices that are due for the offline check are those
-- for which `mark_offline` records a disconnection, in the same order.
pub mark_offline-devices_due :
    (sw : Sweep) (s : Store)
    → map event_mac (mark_offline sw s).1 ≡ map device_mac (devices_due_for_offline sw s)
unfolding mark_offline devices_due_for_offline
mark_offline-devices_due sw s =
    due_rows-mark_rows sw s s (online_rows s.devices)
      (AllFound-filter _ s.devices s.devices (AllFound-self s.devices))
