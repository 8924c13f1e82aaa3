-- ===== src/Mounter/Scan/Endless.antt =====
-- A partition list that never ends.
use a4091_software.Base.{ℕ, zero, suc, ◌≡◌, ◌≢◌, refl, Bool, false, none, List, ◌==◌, arith}
use a4091_software.Mounter.Blocks.{done, long_at}
use a4091_software.Mounter.Scan.{
  Mounts, World, pb_next, idname_partition, mount_part, parse_part, then_more, part_loop, with_last,
  parse_rdsk,
}

part_loop_endless :
    (fuel : ℕ) (w : World) (block : ℕ) (md : Mounts) (buf : List ℕ)
    → block ≢ 0xffffffff
    → w.read block idname_partition ≡ done buf
    → pb_next buf ≡ block
    → part_loop fuel w block md ≡ none
unfolding part_loop parse_part then_more
part_loop_endless zero w block md buf ne got self = refl
part_loop_endless (suc fuel) w block md buf ne got self =
    let going : (block == 0xffffffff) ≡ false = ground arith in
    rw (going, got, parse_part, self)
      (part_loop_endless fuel w block (mount_part w buf md) buf ne got self)

-- Where the partition list of an RDB starts with a valid partition block that names itself as the
-- next one, `ParseRDSK` does not return, however many rounds its loop is given.
pub parse_rdsk_endless :
    (fuel : ℕ) (w : World) (ignore_last : Bool) (rdb buf : List ℕ) (md : Mounts)
    → long_at rdb 28 ≢ 0xffffffff
    → w.read (long_at rdb 28) idname_partition ≡ done buf
    → pb_next buf ≡ long_at rdb 28
    → parse_rdsk fuel w ignore_last rdb md ≡ none
unfolding parse_rdsk with_last
parse_rdsk_endless fuel w ignore_last rdb buf md ne got self =
    rw (part_loop_endless fuel w (long_at rdb 28) md buf ne got self) refl
