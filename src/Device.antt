-- ===== src/Device.antt =====
-- The device's entry points, device.c: drv_open, drv_close and drv_expunge. The library's open count
-- is an Exec field of 16 bits; `delexp` is LIBF_DELEXP of lib_Flags. The units are those of
-- cmdhandler.c.
pub mod Counted
use a4091_software.Base.{
  ℕ, suc, ◌+◌, ◌-◌, ◌%◌, ◌^◌, Bool, true, false, not, ◌||◌, Option, none, some, ◌==◌, ltb,
  if◌then◌else◌,
}
use a4091_software.Base.Int.{ℤ, pos, is_zero}
use a4091_software.Codes
use a4091_software.Cmd.Units.{Units, Attached, open_unit, close_unit}

pub record Device : Type 0 where
  pub units : Units
  pub open_cnt : ℕ
  pub delexp : Bool

-- The device and the request's io_Error and io_Unit, `none` where it is not written. The first
-- argument is Exec's version, then what open_unit is given.
unfoldable pub drv_open :
    ℕ → (memory : Bool) (attached : Attached) → ℕ → ℕ → Device → Device × ℤ × Option ℕ
drv_open version memory attached scsi_unit flags dev =
    if ltb version 36
    then (dev, Codes.open_fail, none)
    else (let up = (dev.open_cnt + 1) % 2 ^ 16 in
        let (units, rc, unit) = open_unit memory attached scsi_unit flags dev.units in
        if not (is_zero rc)
        then (record dev { units = units; open_cnt = (up + 2 ^ 16 - 1) % 2 ^ 16 }, rc, unit)
        else (record dev { units = units; open_cnt = up }, pos 0, unit))

-- Whether the device goes; where it may not yet, it is marked to go later.
unfoldable pub drv_expunge : (still_attached : Bool) → Device → Device × Bool
drv_expunge still_attached dev =
    if not (dev.open_cnt == 0) || still_attached
    then (record dev { delexp = true }, false)
    else (dev, true)

-- The device, the peripheral that CMD_DETACH is sent for, and whether the device goes.
unfoldable pub drv_close : (still_attached : Bool) → ℕ → Device → Device × Option ℕ × Bool
unfolding drv_expunge
drv_close still_attached unit dev =
    let (units, detached) = close_unit unit dev.units in
    let d : Device = record dev {
      units = units;
      open_cnt = (dev.open_cnt + 2 ^ 16 - 1) % 2 ^ 16;
    } in
    let (e, gone) = drv_expunge still_attached d in
    if d.delexp then (e, detached, gone) else (d, detached, false)
