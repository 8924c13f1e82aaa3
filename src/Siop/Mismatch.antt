-- ===== src/Siop/Mismatch.antt =====
-- The phase mismatch interrupt of siop.c's siop_checkintr: the target leaves the data phase in the middle of
-- a block, and the point that was reached is worked out from the registers.
pub mod Resumed
use a4091_software.Base.{ℕ, ◌+◌, ◌-◌, ◌%◌, ◌^◌, Bool, true, false, if◌then◌else◌}

-- siop_dfifo, siop_dbc0, the long at siop_dcmd, siop_dnad, and SIOP_SSTAT1_ORF and SIOP_SSTAT1_OLF of
-- siop_sstat1: whether a byte is in the output register, and one in the output latch.
pub record Chip : Type 0 where
  pub dfifo : ℕ
  pub dbc0 : ℕ
  pub dcmd : ℕ
  pub dnad : ℕ
  pub orf : Bool
  pub olf : Bool

abbrev pub one_if : Bool → ℕ
one_if b = if b then 1 else 0

-- The bytes that the chip has fetched, and not sent.
unfoldable pub adjust : Chip → ℕ
adjust c = (c.dfifo + 128 - c.dbc0 % 128) % 128 + one_if c.orf + one_if c.olf

-- iob_curbuf and iob_curlen.
unfoldable pub phase_mismatch : Chip → ℕ × ℕ
phase_mismatch c = ((c.dnad + 2 ^ 32 - adjust c) % 2 ^ 32, (c.dcmd % 2 ^ 24 + adjust c) % 2 ^ 32)
