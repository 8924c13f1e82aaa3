-- ===== src/Sd/ReadWrite.antt =====
-- `sd_readwrite` and `sd_seek` of sd.c: the smallest CDB that holds the address, and the transfer.
-- A block number is a uint64_t; `buflen` and the block count are 32-bit.
pub mod Decode
use a4091_software.Base.{
  ℕ, ◌/◌, ◌%◌, ◌^◌, Bool, ◌&&◌, Option, some, none, List, [], ◌∷◌, ◌++◌, bit_or, ◌==◌,
  if◌then◌else◌,
}
use a4091_software.Base.Int.{ℤ, pos}
use a4091_software.Base.Bits.{shr, low_bits}
use a4091_software.Codes
use a4091_software.Scsi.{Scsipi, Issued, sd_complete, byte, lto2b, lto3b, lto4b, lto8b, issue}
use a4091_software.Scsi.Ctl
use a4091_software.Periph.{Periph}

abbrev sdretries : ℕ
sdretries = 2

abbrev sd_io_timeout : ℕ
sd_io_timeout = 3000

-- The 6-byte CDB where 21 bits hold the block number and 8 bits the count, else the 10-byte CDB
-- where 32 bits hold the block number, else the 16-byte CDB.
rw_cdb : Bool → ℕ → ℕ → List ℕ
rw_cdb read blkno nblks =
    if (low_bits blkno 21 == blkno) && (low_bits nblks 8 == nblks)
    then (if read then 0x08 else 0x0a) ∷ lto3b blkno ++ (low_bits nblks 8 ∷ 0 ∷ [])
    else if low_bits blkno 32 == blkno
    then (if read then 0x28 else 0x2a) ∷ 0 ∷ lto4b blkno ++ (0 ∷ lto2b nblks ++ (0 ∷ []))
    else (if read then 0x88 else 0x8a) ∷ 0 ∷ lto8b blkno ++ (lto4b nblks ++ (0 ∷ 0 ∷ []))

unfoldable pub sd_readwrite : Scsipi → Periph → ℕ → Bool → ℕ → ℕ → Option ℕ → Issued
unfolding rw_cdb
sd_readwrite s periph blkno read buf buflen ior = issue s Codes.no_memory (record {
  cdb = rw_cdb read blkno (shr buflen periph.blkshift);
  buf = buf;
  buflen = buflen;
  retries = sdretries;
  timeout = sd_io_timeout;
  control = bit_or (bit_or Ctl.async Ctl.simple_tag) (if read then Ctl.data_in else Ctl.data_out);
  ior = ior;
  done = sd_complete;
})

-- A block number above 32 bits has no seek command.
seek_cdb : ℕ → Option (List ℕ)
seek_cdb blkno =
    if low_bits blkno 21 == blkno
    then some (0x0b ∷ lto3b blkno ++ (0 ∷ 0 ∷ []))
    else if low_bits blkno 32 == blkno
    then some (0x2b ∷ 0 ∷ lto4b blkno ++ (0 ∷ 0 ∷ 0 ∷ 0 ∷ []))
    else none

unfoldable pub sd_seek : Scsipi → ℕ → Option ℕ → Issued
unfolding seek_cdb
sd_seek s blkno ior = elim (seek_cdb blkno) [
  | none ↦ record { rc = pos 1; sent = none }
  | some cdb ↦ issue s Codes.no_memory (record {
    cdb = cdb;
    buf = 0;
    buflen = 0;
    retries = 1;
    timeout = 1000;
    control = bit_or Ctl.async Ctl.simple_tag;
    ior = ior;
    done = sd_complete;
  })
]
