-- ===== src/Mounter/Drive.antt =====
-- `MountDrive` of mounter.c: all units of the device are scanned. The requests to open and close a unit
-- and to stop its motor are left out, but for the units asked for.
pub mod Names
use a4091_software.Base.{
  ℕ, zero, suc, ◌+◌, ◌-◌, ◌*◌, Bool, true, false, not, ◌&&◌, Option, none, some, List, [], ◌∷◌,
  ◌++◌, ◌==◌, ltb, if◌then◌else◌,
}
use a4091_software.Base.Int.{ℤ, pos, negsuc}
use a4091_software.Mounter.Blocks.{Outcome, done, failed, hung}
use a4091_software.Mounter.Scan.{Mounts, World, scan_rdsk}
use a4091_software.Mounter.Cdrom.{Disc, check_pvd, scan_cdrom}

-- What a unit answers: whether it opens, the device type of its geometry unless that fails, its blocks,
-- and what the scan of a CD-ROM asks for.
pub record Target : Type 0 where
  pub opens : Bool
  pub device_type : Option ℕ
  pub world : World
  pub file_system : Bool
  pub made : Bool
  pub memory : Bool
  pub change : ℤ × ℕ
  pub disc : Disc

-- `luns` of `struct MountStruct`, and the settings of the boot menu.
pub record MountSettings : Type 0 where
  pub luns : Bool
  pub cdrom_boot : Bool
  pub ignore_last : Bool

-- The mount data, the number of CD-ROMs, the result so far, and the units asked for, the last first.
pub record Drives : Type 0 where
  pub md : Mounts
  pub cnt : ℕ
  pub ret : ℤ
  pub asked : List ℕ

abbrev pub Result : Type 0
Result = Option (Outcome Drives)

unfoldable pub and_then {ℓ} : {A : Type ℓ} → Option (Outcome A) → (A → Result) → Result
and_then none more = none
and_then (some failed) more = some failed
and_then (some hung) more = some hung
and_then (some (done a)) more = more a

-- ScanRDSK with its result.
unfoldable pub scan_disk : ℕ → Bool → World → Drives → Result
unfolding and_then
scan_disk fuel ignore_last w d =
    and_then (scan_rdsk fuel w ignore_last d.md)
      (λ r. some (done (record d { md = r.0; ret = if r.1 then pos r.0.ret else negsuc 0 })))

abbrev is_minus_one : ℤ → Bool
is_minus_one (pos n) = false
is_minus_one (negsuc n) = n == 0

-- ScanCDROM where no RDB was found.
unfoldable pub scan_disc : Target → Drives → Drives
scan_disc u d =
    let (ret, md, cnt) =
      scan_cdrom u.file_system (check_pvd u.memory u.change u.disc) u.made d.cnt d.md in
    if is_minus_one d.ret then record d { md = md; cnt = cnt; ret = ret } else d

-- The switch over the device type.
unfoldable pub scan_unit : ℕ → MountSettings → Target → Drives → Result
unfolding scan_disk scan_disc and_then
scan_unit fuel set u d =
    let start : Drives = record d { ret = negsuc 0 } in
    elim u.device_type [
      | none ↦ some (done start)
      | some type ↦
          if type == 5
          then (if set.cdrom_boot
              then and_then (scan_disk fuel set.ignore_last u.world start)
                  (λ e. some (done (scan_disc u e)))
              else some (done start))
          else if type == 0
          then scan_disk fuel set.ignore_last u.world start
          else some (done start)
    ]

-- The LUNs of a target from one on, and what follows: `more` is the next target.
unfoldable pub lun_loop :
    ℕ → MountSettings → (ℕ → Target) → (left target lun : ℕ) → (Drives → Result) → Drives → Result
unfolding scan_unit
lun_loop fuel set units zero target lun more d = more d
lun_loop fuel set units (suc left) target lun more d =
    let next = lun_loop fuel set units left target (lun + 1) more in
    let unit = target + lun * 10 in
    let asked : Drives = record d { asked = unit ∷ d.asked } in
    if not (units unit).opens
    then more asked
    else and_then (scan_unit fuel set (units unit) asked) (λ e.
      if set.luns && (ltb lun 8 && not e.md.was_last_lun)
      then next e
      else if e.md.was_last_dev
      then some (done e)
      else more e)

unfoldable pub target_loop : ℕ → MountSettings → (ℕ → Target) → (left target : ℕ) → Drives → Result
unfolding lun_loop
target_loop fuel set units zero target d = some (done d)
target_loop fuel set units (suc left) target d =
    lun_loop fuel set units 9 target 0 (target_loop fuel set units left (target + 1)) d

-- `none` where the loop over the partitions of a drive runs out of its fuel.
unfoldable pub mount_drive : ℕ → MountSettings → (ℕ → Target) → Mounts → ℕ → Result
unfolding target_loop
mount_drive fuel set units md cnt =
    target_loop fuel set units 8 0 (record { md = md; cnt = cnt; ret = negsuc 0; asked = [] })
