-- ===== src/Examples/Drive.antt =====
-- CD-ROMs and the loop over the units at concrete inputs.
use a4091_software.Base.{
  ℕ, ◌<◌, ◌≡◌, refl, true, false, some, List, [], ◌∷◌, ◌==◌, Bool-cases, inl, inr, arith,
  if◌then◌else◌,
}
use a4091_software.Base.Int.{pos, negsuc}
use a4091_software.Mounter.Blocks.{done, long_at}
use a4091_software.Mounter.Scan.{Mounts, parse_rdsk, scan_rdsk}
use a4091_software.Mounter.Names.{to_upper, add_one, c_string, is_taken, check_and_fix_dev_name}
use a4091_software.Mounter.Names.Strings.{IsString}
use a4091_software.Examples.Mounter.{world, world-HasNames, two_mounts}
use a4091_software.Mounter.Scan.Distinct.{AllDistinct, HasNames}
use a4091_software.Mounter.Cdrom.{Disc, sector, is_pvd, is_amiga, pvd_loop, check_pvd}
use a4091_software.Mounter.Cdrom.Cdtv.{IsCdtv, First, check_pvd-IsCdtv}
use a4091_software.Mounter.Drive.{
  Target, Drives, MountSettings, and_then, scan_disk, scan_unit, lun_loop, target_loop, mount_drive,
}
use a4091_software.Mounter.Drive.Names.{mount_drive-AllDistinct}

-- A disc whose sectors all are the volume descriptor of a CDTV title.
abbrev cdtv : Disc
cdtv offset retry =
    (pos 0, 2048, 1 ∷ b'C' ∷ b'D' ∷ b'0' ∷ b'0' ∷ b'1' ∷ 1 ∷ 0 ∷ b'C' ∷ b'D' ∷ b'T' ∷ b'V' ∷ [])

cdtv_found : check_pvd true (pos 0, 0) cdtv ≡ true
unfolding check_pvd pvd_loop sector is_pvd is_amiga
cdtv_found = refl

check_pvd-IsCdtv_example : (j : ℕ) × (j < 32) × IsCdtv (sector cdtv j) × First cdtv 0 j
check_pvd-IsCdtv_example = check_pvd-IsCdtv true (pos 0, 0) cdtv cdtv_found

-- The same for AMIGA BOOT.
abbrev amiga_boot : Disc
amiga_boot offset retry = (
  pos 0,
  2048,
  1 ∷ b'C' ∷ b'D' ∷ b'0' ∷ b'0' ∷ b'1' ∷ 1 ∷ 0 ∷ b'A' ∷ b'M' ∷ b'I' ∷ b'G' ∷ b'A' ∷ b' ' ∷ b'B'
      ∷ b'O' ∷ b'O' ∷ b'T' ∷ [],
)

amiga_boot_missed : check_pvd true (pos 0, 0) amiga_boot ≡ false
unfolding check_pvd pvd_loop sector is_pvd is_amiga
amiga_boot_missed = refl

-- A disk with no RDB at unit 3, and nothing else.
abbrev empty_disk : Target
empty_disk = record {
  opens = true;
  device_type = some 0;
  world = record { read = λ block id. done []; memory = true; make_dos_node = λ buf. true };
  file_system = false;
  made = false;
  memory = false;
  change = (pos 0, 0);
  disc = cdtv;
}

abbrev units : ℕ → Target
units n = if n == 3 then empty_disk else record empty_disk { opens = false }

abbrev settings : MountSettings
settings = record { luns = true; cdrom_boot = false; ignore_last = false }

abbrev start : Mounts
start = record {
  nodes = [];
  ret = 0;
  was_last_dev = false;
  was_last_lun = false;
  dos_running = false;
}

-- The same with a disk at unit 5 that has two partitions of one name.
abbrev more_units : ℕ → Target
more_units n = if n == 5 then record empty_disk { world = world } else units n

empty-HasNames : HasNames empty_disk.world
unfolding HasNames IsString
empty-HasNames block buf e =
    let same : ◌≡◌ {A = List ℕ} [] buf = cc e in rw (← same) (tt, omega arith)

more-HasNames : (n : ℕ) → HasNames (more_units n).world
more-HasNames n = elim (Bool-cases (n == 5)) [
  | inl full ↦ rw full world-HasNames
  | inr other ↦ elim (Bool-cases (n == 3)) [
    | inl empty ↦ rw (other, empty) empty-HasNames
    | inr closed ↦ rw (other, closed) empty-HasNames
  ]
]

abbrev mounted : Drives
mounted = record {
  md = two_mounts;
  cnt = 0;
  ret = pos 2;
  asked = 7 ∷ 6 ∷ 15 ∷ 5 ∷ 4 ∷ 13 ∷ 3 ∷ 2 ∷ 1 ∷ 0 ∷ [];
}

all_mounted : mount_drive 5 settings more_units start 0 ≡ some (done mounted)
unfolding mount_drive target_loop lun_loop scan_unit scan_disk and_then scan_rdsk parse_rdsk
    check_and_fix_dev_name is_taken add_one c_string long_at to_upper
all_mounted = refl

mount_drive-AllDistinct_example : AllDistinct two_mounts.nodes
mount_drive-AllDistinct_example =
    mount_drive-AllDistinct 5 settings more_units start 0 {d = mounted} refl more-HasNames
      (unfold AllDistinct in tt) all_mounted (omega arith)

-- The first LUN of each target, and LUN 1 of the target that is there.
asked_for :
    mount_drive 5 settings units start 0
    ≡ some (
        done (record {
          md = start;
          cnt = 0;
          ret = negsuc 0;
          asked = 7 ∷ 6 ∷ 5 ∷ 4 ∷ 13 ∷ 3 ∷ 2 ∷ 1 ∷ 0 ∷ [];
        }))
unfolding mount_drive target_loop lun_loop scan_unit scan_disk and_then scan_rdsk long_at
asked_for = refl
