-- ===== src/Examples/Sd.antt =====
-- The theorems about sd.c at concrete drives, requests and results.
use a4091_software.Base.{
  ℕ, ◌+◌, ◌-◌, ◌%◌, ◌^◌, ◌<◌, ◌≤◌, ◌≡◌, ◌≢◌, ◌↔◌, refl, true, false, none, some, List, [], ◌∷◌, inl,
  arith, if◌then◌else◌, ◌==◌,
}
use a4091_software.Base.Int.{ℤ, pos}
use a4091_software.Scsi.{Scsipi}
use a4091_software.Periph.{Periph}
use a4091_software.Sd.Errors.{XsResult, translate_xs_error}
use a4091_software.Sd.ReadWrite.{sd_readwrite}
use a4091_software.Sd.ReadWrite.Decode.{Asks, sd_readwrite-decode}
use a4091_software.Sd.BlockSize.{is_valid_blksize, calc_blkshift}
use a4091_software.Sd.BlockSize.PowerOfTwo.{is_valid_blksize_iff}
use a4091_software.Sd.BlockSize.Shift.{calc_blkshift-log2}
use a4091_software.Sd.Capacity.{ModePages, sd_blocksize}
use a4091_software.Sd.Capacity.Honest.{device}
use a4091_software.Sd.Capacity.Consistent.{sd_blocksize-consistent}
use a4091_software.Sd.Media.Tur.{sd_tur_completed}
use a4091_software.Sd.Media.Count.{
  medium_after, differs, tick, registered, watch, changes, sd_tur_completed-medium, watch-changes,
}
use a4091_software.Sd.Direct.{ScsiCmd}
use a4091_software.Sd.Geometry.{conv_sectors_to_chs}
use a4091_software.Sd.Geometry.Chs.{IsChs, conv_sectors_to_chs-IsChs}
use a4091_software.Sd.Geometry.Step.{inquiry, Chain, Event, start, sd_getgeometry}
use a4091_software.Sd.Geometry.Chain.{run, sd_getgeometry-completes}

-- A scsipi layer that takes every transfer, and a disk drive of 512-byte blocks.
abbrev pub willing : Scsipi
willing = record { make_xs = true; execute_xs = λ _. pos 0 }

abbrev pub drive : Periph
drive = record {
  target = 3;
  lun = 0;
  dev_type = 0;
  blkshift = 9;
  media_loaded = true;
  notur = false;
  changenum = 1;
  tur_active = 0;
  changeint = some 0x4000;
  changeintlist = record { ior = 0x2000; handler = some 0x3000 } ∷ [];
}

abbrev pub good : XsResult
good = record { error = 0; sense_key = 0; asc = 0; ascq = 0 }

abbrev pub ejected : XsResult
ejected = record { error = 1; sense_key = 2; asc = 0x3a; ascq = 0 }

sd_readwrite-decode_example :
    Asks
      (sd_readwrite willing drive 0x12345678 true 0x1000 0x20000 (some 7))
      (some 7)
      (true, 0x12345678, 256)
sd_readwrite-decode_example =
    sd_readwrite-decode willing drive 0x12345678 true 0x1000 0x20000 (some 7) refl (omega arith)
      (omega arith) (omega arith) (inl (omega arith))

is_valid_blksize_iff_example :
    (is_valid_blksize 2048 ≡ true) ↔ ((k : ℕ) × (8 ≤ k) × (k ≤ 15) × (2048 ≡ 2 ^ k))
is_valid_blksize_iff_example = is_valid_blksize_iff 2048 (omega arith)

calc_blkshift-log2_example :
    (s : ℕ) × (calc_blkshift 3000 ≡ some s) × (2 ^ s ≤ 3000) × (3000 < 2 ^ (s + 1))
calc_blkshift-log2_example = calc_blkshift-log2 3000 (omega arith) (omega arith)

abbrev pub no_pages : ModePages
no_pages = record { disk_format_bytes_s = none; rbc_params_lbs = none }

abbrev unprobed : Periph
unprobed = record drive { blkshift = 0 }

sd_blocksize-consistent_example :
    (s : ℕ) × (sd_blocksize (device 99 2048 []) true no_pages unprobed
      ≡ some (2 ^ s, record unprobed { blkshift = s }))
    × (8 ≤ s)
    × (s ≤ 15)
    × (s ≡ (if unprobed.blkshift == 0 then s else unprobed.blkshift))
sd_blocksize-consistent_example =
    sd_blocksize-consistent (device 99 2048 []) true no_pages unprobed (inl refl)

sd_tur_completed-medium_example :
    let after = medium_after ejected drive.media_loaded in
    let changed = differs drive.media_loaded after in
    ((sd_tur_completed drive ejected none).0 ≡ record drive {
      media_loaded = after;
      changenum = (drive.changenum + tick changed) % 2 ^ 32;
      tur_active = (drive.tur_active + 2 ^ 32 - 1) % 2 ^ 32;
    })
    × ((sd_tur_completed drive ejected none).1 ≡ (if changed then registered drive else []))
sd_tur_completed-medium_example = sd_tur_completed-medium drive ejected none (omega arith)

watch-changes_example :
    (watch drive (ejected ∷ ejected ∷ good ∷ [])).changenum
    ≡ (drive.changenum + changes drive.media_loaded (ejected ∷ ejected ∷ good ∷ [])) % 2 ^ 32
watch-changes_example = watch-changes drive (ejected ∷ ejected ∷ good ∷ []) (omega arith)

abbrev pub direct : ScsiCmd
direct = record {
  command = 0x12 ∷ 0 ∷ 0 ∷ 0 ∷ 36 ∷ 0 ∷ [];
  cmd_length = 6;
  buf = 0x1000;
  length = 36;
  flags_read = true;
  autosense = true;
  sense_data = 9 ∷ 9 ∷ 9 ∷ 9 ∷ [];
  sense_length = 3;
  status = 0;
  actual = 0;
  cmd_actual = 0;
  sense_actual = 0;
}

abbrev sense_bytes : List ℕ
sense_bytes = 0x70 ∷ 0 ∷ 2 ∷ 0 ∷ 0 ∷ []

ejected_fails : translate_xs_error ejected ≢ pos 0
unfolding translate_xs_error
ejected_fails e = ground arith

conv_sectors_to_chs-IsChs_example :
    let (c, h, s) = conv_sectors_to_chs 2097152 in IsChs 2097152 c h s
conv_sectors_to_chs-IsChs_example = conv_sectors_to_chs-IsChs 2097152 (omega arith)

-- A completion with a result and its data, with memory and transfers for the next command.
abbrev completion : XsResult → List ℕ → Event
completion result bytes = record {
  result = result;
  data_in = bytes;
  allocated = true;
  buf = 0x1000;
  buflen = 36;
  scsipi = willing;
}

abbrev chain : Chain
chain = start drive (some 7) 0

abbrev fails : Event
fails = completion ejected []

abbrev all_fail : List Event
all_fail = fails ∷ fails ∷ fails ∷ fails ∷ fails ∷ fails ∷ fails ∷ fails ∷ []

sd_getgeometry-completes_example :
    let end = run all_fail inquiry (sd_getgeometry willing true 0x1000 36 drive (some 7)).0 in
    ((rc : ℤ) × (end.1 ≡ some rc)) × (end.0.buffers ≡ 0)
sd_getgeometry-completes_example =
    sd_getgeometry-completes willing 0x1000 36 drive (some 7) all_fail (omega arith)
