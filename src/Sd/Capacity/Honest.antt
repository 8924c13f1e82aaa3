-- ===== src/Sd/Capacity/Honest.antt =====
-- What `sd_read_capacity` reports of a device that answers the two commands by the standard.
use a4091_software.Base.{
  ℕ, ◌+◌, ◌^◌, ◌<◌, ◌≡◌, true, some, List, ◌++◌, arith, ◌==◌, ltb, if◌then◌else◌, get_or,
}
use a4091_software.Scsi.{lto4b, lto8b}
use a4091_software.Sd.Capacity.{Command, sd_read_capacity}

-- A device whose last block is `last` and whose block size is `len`: READ CAPACITY (10) answers
-- ffffffff where 32 bits cannot hold the last block. READ CAPACITY (16) has 20 bytes more.
pub device : ℕ → ℕ → List ℕ → Command
device last len rest cdb datalen =
    if get_or cdb 0 0 == 0x25
    then some ((if ltb last 0xffffffff then lto4b last else lto4b 0xffffffff) ++ lto4b len)
    else some (lto8b last ++ (lto4b len ++ rest))

-- For every device of fewer than 2 ^ 64 blocks that answers so, whichever command is needed, the
-- capacity is the number of its blocks and the block size is the device's.
pub sd_read_capacity-device :
    (last len old : ℕ) (rest : List ℕ)
    → last + 1 < 2 ^ 64
    → len < 2 ^ 32
    → sd_read_capacity (device last len rest) true old ≡ (last + 1, len)
unfolding sd_read_capacity device
sd_read_capacity-device last len old rest h l = ground arith
