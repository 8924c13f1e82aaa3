-- ===== src/Examples/Device.antt =====
-- The theorem about device.c for a device that was opened, closed and opened again.
use a4091_software.Base.{◌≡◌, ◌↔◌, refl, true, false, [], arith}
use a4091_software.Base.Int.{pos}
use a4091_software.Cmd.Units.{Attached, open_unit}
use a4091_software.Cmd.Units.Refs.{has_periph}
use a4091_software.Device.{Device, drv_open, drv_close, drv_expunge}
use a4091_software.Device.Counted.{Reachable, loaded, opened, closed, drv_expunge-idle}

abbrev fresh : Device
fresh = record { units = record { entries = []; allocated = 0 }; open_cnt = 0; delexp = false }

abbrev answer : Attached
answer = record { error = pos 0; periph = 0x7000 }

abbrev opened_once : Device
opened_once = (drv_open 47 true answer 3 0 fresh).0

abbrev closed_again : Device
closed_again = (drv_close false 0x7000 opened_once).0

opened-Reachable : Reachable opened_once
opened-Reachable = opened 47 true answer 3 0 fresh (omega arith) (loaded 0)

is_open : has_periph 0x7000 opened_once.units.entries ≡ true
unfolding has_periph drv_open open_unit
is_open = refl

closed-Reachable : Reachable closed_again
closed-Reachable = closed false 0x7000 opened_once is_open opened-Reachable

drv_expunge-idle_example :
    ((drv_expunge false closed_again).1 ≡ true)
    ↔ ((closed_again.units.entries ≡ []) × (false ≡ false))
drv_expunge-idle_example = drv_expunge-idle false closed_again closed-Reachable
