-- ===== src/Mounter/Scan.antt =====
-- The partitions of a drive: `ParsePART`, `AddNode`, `ParseRDSK` and `ScanRDSK` of mounter.c. The
-- file system that ParsePART also looks for, and the patches of the device node by it, are in FileSystems.
pub mod Distinct
pub mod Endless
use a4091_software.Base.{
  ℕ, zero, suc, ◌+◌, ◌-◌, ◌*◌, ◌/◌, ◌%◌, ◌^◌, Bool, true, false, not, ◌&&◌, Option, none, some,
  List, [], ◌∷◌, ◌==◌, ltb, if◌then◌else◌, length, take, drop, map, get_or,
}
use a4091_software.Base.Int.{ℤ, pos, negsuc}
use a4091_software.Mounter.Blocks.{Drive, Outcome, done, failed, hung, long_at, any_id, readblock}
use a4091_software.Mounter.Names.{c_string, check_and_fix_dev_name}

-- A node on the mount list, and whether it was added as bootable.
pub record Node : Type 0 where
  pub name : List ℕ
  pub boot_pri : ℤ
  pub bootable : Bool

abbrev pub names : List Node → List (List ℕ)
names = map (λ n. n.name)

-- The fields of `struct MountData` that the scan changes, and the mount list. `dos_running` is
-- whether dos.library is there.
pub record Mounts : Type 0 where
  pub nodes : List Node
  pub ret : ℕ
  pub was_last_dev : Bool
  pub was_last_lun : Bool
  pub dos_running : Bool

-- `struct PartitionBlock`: pb_Next, pb_Flags, pb_DriveName and de_BootPri of pb_Environment.
abbrev pub pb_next : List ℕ → ℕ
pb_next buf = long_at buf 16

abbrev pub pb_bootable : List ℕ → Bool
pb_bootable buf = not (long_at buf 20 % 2 == 0)

abbrev pub pb_nomount : List ℕ → Bool
pb_nomount buf = not (long_at buf 20 / 2 % 2 == 0)

abbrev pub pb_name : List ℕ → List ℕ
pb_name buf = take (get_or buf 36 0) (drop 37 buf)

abbrev pub signed32 : ℕ → ℤ
signed32 w = if ltb w (2 ^ 31) then pos w else negsuc (2 ^ 32 - w - 1)

abbrev pub pb_boot_pri : List ℕ → ℤ
pb_boot_pri buf = signed32 (long_at buf 188)

abbrev is_above_min : ℤ → Bool
is_above_min (pos n) = true
is_above_min (negsuc n) = ltb n 127

-- The name that `CheckAndFixDevName` leaves. It ends within these rounds where the length byte does not wrap
-- around; where it has not ended, the name is left as it is here.
unfoldable pub fixed_name : List Node → List ℕ → List ℕ
fixed_name nodes name =
    elim (check_and_fix_dev_name (length (names nodes) + 1) (names nodes) name) [
      | none ↦ name
      | some r ↦ r
    ]

-- `AddNode` for Kickstart 2.0 and later: a partition that is not bootable has the priority -128. The
-- name is a C string: MakeDosNode, which made the node, was given it as one. The
-- nodes stand in the order of their mounting, the last one first; the system sorts them by priority.
add_node : List ℕ → List ℕ → Mounts → Mounts
add_node buf name md =
    let boot_pri = if pb_bootable buf then pb_boot_pri buf else negsuc 127 in
    record md {
      nodes =
          record {
            name = c_string name;
            boot_pri = boot_pri;
            bootable = not md.dos_running && is_above_min boot_pri;
          }
          ∷ md.nodes;
      ret = md.ret + 1;
    }

-- Blocks as `readblock` gives them, whether memory for the parameters can be had, and whether
-- MakeDosNode makes a node for the partition of a block.
pub record World : Type 0 where
  pub read : (block id : ℕ) → Outcome (List ℕ)
  pub memory : Bool
  pub make_dos_node : List ℕ → Bool

-- IDNAME_PARTITION and IDNAME_RIGIDDISK of devices/hardblocks.h, "PART" and "RDSK".
abbrev pub idname_partition : ℕ
idname_partition = 0x50415254

abbrev pub idname_rigiddisk : ℕ
idname_rigiddisk = 0x5244534b

mount_part : World → List ℕ → Mounts → Mounts
unfolding add_node fixed_name
mount_part w buf md =
    if not (pb_nomount buf) && (w.memory && w.make_dos_node buf)
    then add_node buf (fixed_name md.nodes (pb_name buf)) md
    else md

-- The state and the next block, or no return.
parse_part : World → ℕ → Mounts → Outcome (Mounts × ℕ)
unfolding mount_part
parse_part w block md = elim (w.read block idname_partition) [
  | failed ↦ done (md, 0xffffffff)
  | hung ↦ hung
  | done buf ↦ done (mount_part w buf md, pb_next buf)
]

then_more : (ℕ → Mounts → Option (Outcome Mounts)) → Outcome (Mounts × ℕ) → Option (Outcome Mounts)
then_more more (done (md, next)) = more next md
then_more more failed = some failed
then_more more hung = some hung

-- The loop over the partition blocks; `none` where the fuel runs out.
part_loop : ℕ → World → ℕ → Mounts → Option (Outcome Mounts)
unfolding parse_part then_more
part_loop zero w block md = none
part_loop (suc fuel) w block md =
    let more = part_loop fuel w in
    if block == 0xffffffff then some (done md) else then_more more (parse_part w block md)

-- RDBFF_LAST and RDBFF_LASTLUN are bits 0 and 1 of rdb_Flags.
set_last : (ignore_last : Bool) → ℕ → Mounts → Mounts
set_last ignore_last flags md = record md {
  was_last_dev = not ignore_last && not (flags % 2 == 0);
  was_last_lun = not (flags / 2 % 2 == 0);
}

with_last : Bool → ℕ → Option (Outcome Mounts) → Option (Outcome Mounts)
unfolding set_last
with_last ignore_last flags (some (done md)) = some (done (set_last ignore_last flags md))
with_last ignore_last flags o = o

-- The result is `md.ret`. The partition list is at byte 28 of the block, the flags at byte 20.
unfoldable pub parse_rdsk :
    ℕ → World → (ignore_last : Bool) → List ℕ → Mounts → Option (Outcome Mounts)
unfolding part_loop with_last
parse_rdsk fuel w ignore_last buf md =
    with_last ignore_last (long_at buf 20) (part_loop fuel w (long_at buf 28) md)

found : Option (Outcome Mounts) → Option (Outcome (Mounts × Bool))
found none = none
found (some (done md)) = some (done (md, true))
found (some failed) = some failed
found (some hung) = some hung

-- What ScanRDSK leaves: the state, and whether an RDB was found (the result -1 otherwise).
scan_from :
    ℕ → World → (ignore_last : Bool) → (left i : ℕ) → Mounts → Option (Outcome (Mounts × Bool))
unfolding parse_rdsk found
scan_from fuel w ignore_last zero i md = some (done (md, false))
scan_from fuel w ignore_last (suc left) i md =
    let more = scan_from fuel w ignore_last left (i + 1) md in
    elim (w.read i any_id) [
      | failed ↦ more
      | hung ↦ some hung
      | done buf ↦
          if long_at buf 0 == idname_rigiddisk
          then found (parse_rdsk fuel w ignore_last buf md)
          else more
    ]

-- RDB_LOCATION_LIMIT is 16.
unfoldable pub scan_rdsk :
    ℕ → World → (ignore_last : Bool) → Mounts → Option (Outcome (Mounts × Bool))
unfolding scan_from
scan_rdsk fuel w ignore_last md = scan_from fuel w ignore_last 16 0 md
