-- ===== src/Sd/Capacity.antt =====
-- `sd_read_capacity`, `sd_blocksize` and `sd_get_protstatus` of sd.c. They wait for their commands,
-- so the answers of `scsipi_command` and `scsipi_mode_sense` are arguments.
pub mod Honest
pub mod Consistent
use a4091_software.Base.{
  ℕ, ◌+◌, ◌%◌, ◌^◌, Bool, Option, none, some, List, [], ◌∷◌, ◌++◌, ◌==◌, if◌then◌else◌,
}
use a4091_software.Scsi.{btol2, btol4, btol8, lto4b, lto8b}
use a4091_software.Periph.{Periph}
use a4091_software.Sd.BlockSize.{is_valid_blksize, calc_blkshift}

-- A command that is waited for: from the CDB and the length of the data buffer to the data, or
-- `none` where `scsipi_command` returns an error.
abbrev pub Command : Type 0
Command = List ℕ → ℕ → Option (List ℕ)

abbrev cdb_capacity_10 : List ℕ
cdb_capacity_10 = 0x25 ∷ 0 ∷ lto8b 0

abbrev cdb_capacity_16 : List ℕ
cdb_capacity_16 = 0x9e ∷ 0x10 ∷ lto8b 0 ++ (lto4b 32 ++ (0 ∷ 0 ∷ []))

-- The capacity in blocks, and the block size, which is `blksize` still where no command worked.
-- The second argument says whether the data buffer could be allocated.
unfoldable pub sd_read_capacity : Command → Bool → ℕ → ℕ × ℕ
sd_read_capacity command allocated blksize =
    if allocated
    then (elim (command cdb_capacity_10 8) [
      | none ↦ (0, blksize)
      | some d ↦
          if btol4 d 0 == 0xffffffff
          then (elim (command cdb_capacity_16 32) [
            | none ↦ (0, blksize)
            | some e ↦ ((btol8 e 0 + 1) % 2 ^ 64, btol4 e 8)
          ])
          else (btol4 d 0 + 1, btol4 d 4)
    ])
    else (31, blksize)

-- The two mode pages that can hold a block size: the bytes of the field, `none` where
-- `scsipi_mode_sense` fails.
pub record ModePages : Type 0 where
  pub disk_format_bytes_s : Option (List ℕ)
  pub rbc_params_lbs : Option (List ℕ)

abbrev td_sector : ℕ
td_sector = 512

-- A mode page's block size, if the page came and the size is valid.
valid_field : Option (List ℕ) → Option ℕ
valid_field none = none
valid_field (some d) = if is_valid_blksize (btol2 d 0) then some (btol2 d 0) else none

or_else : Option ℕ → ℕ → ℕ
or_else none d = d
or_else (some n) d = n

probe_blksize : Command → Bool → ModePages → ℕ
unfolding sd_read_capacity valid_field or_else
probe_blksize command allocated pages =
    let blksize = (sd_read_capacity command allocated 0).1 in
    if is_valid_blksize blksize
    then blksize
    else or_else (valid_field pages.disk_format_bytes_s)
        (or_else (valid_field pages.rbc_params_lbs) td_sector)

-- The block size, and the peripheral with its shift. The shift comes from a loop on fuel.
unfoldable pub sd_blocksize : Command → Bool → ModePages → Periph → Option (ℕ × Periph)
unfolding probe_blksize
sd_blocksize command allocated pages periph =
    if periph.blkshift == 0
    then (let blksize = probe_blksize command allocated pages in
        elim (calc_blkshift blksize) [
          | none ↦ none
          | some shift ↦ some (blksize, record periph { blkshift = shift })
        ])
    else some (2 ^ periph.blkshift, periph)
