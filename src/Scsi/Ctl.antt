-- ===== src/Scsi/Ctl.antt =====
-- The XS_CTL bits of scsipiconf.h that sd.c sets.
use Prim.Native.Nat.{ℕ}

abbrev pub async : ℕ
async = 0x8

abbrev pub silent : ℕ
silent = 0x20

abbrev pub ignore_not_ready : ℕ
ignore_not_ready = 0x40

abbrev pub ignore_media_change : ℕ
ignore_media_change = 0x80

abbrev pub data_in : ℕ
data_in = 0x1000

abbrev pub data_out : ℕ
data_out = 0x2000

abbrev pub simple_tag : ℕ
simple_tag = 0x20000
