-- ===== src/Periph.antt =====
-- The fields of `struct scsipi_periph` (scsipiconf.h) that this project added to it or that its
-- own code reads.
use a4091_software.Base.{ℕ, Bool, Option, List}

-- A request queued by TD_ADDCHANGEINT: its address, and the interrupt in its io_Data.
pub record ChangeInt : Type 0 where
  pub ior : ℕ
  pub handler : Option ℕ

pub record Periph : Type 0 where
  pub target : ℕ
  pub lun : ℕ
  pub dev_type : ℕ
  pub blkshift : ℕ
  pub media_loaded : Bool  -- PERIPH_MEDIA_LOADED of periph_flags
  pub notur : Bool  -- PQUIRK_NOTUR of periph_quirks
  pub changenum : ℕ
  pub tur_active : ℕ
  pub changeint : Option ℕ
  pub changeintlist : List ChangeInt
