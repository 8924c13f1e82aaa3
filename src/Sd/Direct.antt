-- ===== src/Sd/Direct.antt =====
-- HD_SCSICMD in sd.c: `sd_scsidirect`, `scsidirect_complete`, and `sd_complete`, which completes
-- reads, writes and seeks. Also `sd_get_protstatus`, which waits for its command.
pub mod Sense
use a4091_software.Base.{
  ℕ, ◌+◌, ◌/◌, ◌%◌, ◌^◌, Bool, true, false, not, ◌&&◌, Option, none, some, List, [], ◌∷◌, bit_and,
  bit_or, ltb, zero, suc, length, take, ◌==◌, if◌then◌else◌,
}
use a4091_software.Base.Int.{ℤ, pos, is_zero, to_uint8}
use a4091_software.Scsi.{Scsipi, Issued, scsidirect_complete, u8_at, issue}
use a4091_software.Scsi.Ctl
use a4091_software.Sd.Errors.{XsResult, translate_xs_error}
use a4091_software.Sd.Media.Tur.{Reply, cmd_complete}

-- `struct SCSICmd`. `flags_read` and `autosense` are SCSIF_READ and SCSIF_AUTOSENSE of scsi_Flags;
-- `sense_data` are the bytes at scsi_SenseData.
pub record ScsiCmd : Type 0 where
  pub command : List ℕ
  pub cmd_length : ℕ
  pub buf : ℕ
  pub length : ℕ
  pub flags_read : Bool
  pub autosense : Bool
  pub sense_data : List ℕ
  pub sense_length : ℕ
  pub status : ℕ
  pub actual : ℕ
  pub cmd_actual : ℕ
  pub sense_actual : ℕ

unfoldable pub sd_scsidirect : Scsipi → ScsiCmd → Option ℕ → ScsiCmd × Issued
sd_scsidirect s scmd ior = (
  record scmd { status = 0; actual = 0; cmd_actual = 0; sense_actual = 0 },
  issue s (pos 1) (record {
    cdb = take scmd.cmd_length scmd.command;
    buf = scmd.buf;
    buflen = scmd.length;
    retries = 1;
    timeout = 3000;
    control =
        bit_or (bit_or Ctl.async Ctl.simple_tag)
          (if scmd.flags_read then Ctl.data_in else Ctl.data_out);
    ior = ior;
    done = scsidirect_complete;
  }),
)

-- `CopyMem` of `n` bytes: the first `n` of the destination become those of the source.
copy_mem : ℕ → List ℕ → List ℕ → List ℕ
copy_mem zero source dest = dest
copy_mem (suc n) [] dest = dest
copy_mem (suc n) (b ∷ bs) [] = []
copy_mem (suc n) (b ∷ bs) (d ∷ ds) = b ∷ copy_mem n bs ds

-- `sense` are the bytes of xs->sense.scsi_sense.
unfoldable pub scsidirect_completed :
    ScsiCmd → XsResult → (sense : List ℕ) → Option ℕ → ScsiCmd × Option Reply
unfolding copy_mem
scsidirect_completed scmd xs sense ior =
    let rc = translate_xs_error xs in
    let c = record scmd {
      status = to_uint8 rc;
      actual = scmd.length;
      cmd_actual = scmd.cmd_length;
    } in
    let len = if ltb (length sense) scmd.sense_length then length sense else scmd.sense_length in
    (
      if not (is_zero rc) && scmd.autosense
          then record c { sense_data = copy_mem len sense scmd.sense_data; sense_actual = len }
          else c,
      cmd_complete ior rc none,
    )

unfoldable pub sd_completed : XsResult → Option ℕ → Option Reply
sd_completed xs ior = cmd_complete ior (translate_xs_error xs) none

-- What `scsipi_mode_sense` of page 3 gave: an error, or the bytes with their header.
pub data ModeSense : Type 0 where
  failed : ℤ → ModeSense
  page : List ℕ → ModeSense

-- The code and the status. Byte 8 is ctl_flags3 of a control page behind the header.
unfoldable pub sd_get_protstatus : ModeSense → ℤ × ℕ
sd_get_protstatus (failed rc) = (rc, 0)
sd_get_protstatus (page d) = (pos 0, if bit_and (u8_at d 8) 0x08 == 0 then 0 else 1)
