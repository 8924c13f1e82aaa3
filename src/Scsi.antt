-- ===== src/Scsi.antt =====
-- The data of one SCSI command: bytes in big-endian fields (scsipiconf.h), transfer control flags,
-- and the transfer that sd.c hands to the scsipi layer. That layer is a copy of NetBSD's and is a
-- parameter here: `Scsipi` holds its answers to the two calls that sd.c makes of it.
pub mod Ctl
use a4091_software.Base.{
  ℕ, ◌+◌, ◌*◌, ◌/◌, ◌%◌, ◌^◌, Bool, Option, none, some, List, [], ◌∷◌, get_or, if◌then◌else◌,
}
use a4091_software.Base.Int.{ℤ}

-- One byte of a number: `(val >> shift) & 0xff`.
abbrev pub byte : ℕ → ℕ → ℕ
byte val shift = val / 2 ^ shift % 256

abbrev pub lto2b : ℕ → List ℕ
lto2b val = byte val 8 ∷ byte val 0 ∷ []

abbrev pub lto3b : ℕ → List ℕ
lto3b val = byte val 16 ∷ byte val 8 ∷ byte val 0 ∷ []

abbrev pub lto4b : ℕ → List ℕ
lto4b val = byte val 24 ∷ byte val 16 ∷ byte val 8 ∷ byte val 0 ∷ []

abbrev pub lto8b : ℕ → List ℕ
lto8b val =
    byte val 56
    ∷ byte val 48
    ∷ byte val 40
    ∷ byte val 32
    ∷ byte val 24
    ∷ byte val 16
    ∷ byte val 8
    ∷ byte val 0
    ∷ []

-- A byte of a buffer, and `_2btol`, `_3btol`, `_4btol` and `_8btol` at an offset of a buffer; what no transfer wrote is 0.
abbrev pub u8_at : List ℕ → ℕ → ℕ
u8_at d i = get_or d i 0 % 256

abbrev pub btol2 : List ℕ → ℕ → ℕ
btol2 d i = u8_at d i * 2 ^ 8 + u8_at d (i + 1)

abbrev pub btol3 : List ℕ → ℕ → ℕ
btol3 d i = u8_at d i * 2 ^ 16 + u8_at d (i + 1) * 2 ^ 8 + u8_at d (i + 2)

abbrev pub btol4 : List ℕ → ℕ → ℕ
btol4 d i = btol2 d i * 2 ^ 16 + btol2 d (i + 2)

abbrev pub btol8 : List ℕ → ℕ → ℕ
btol8 d i = btol4 d i * 2 ^ 32 + btol4 d (i + 4)

-- The functions that sd.c installs as `xs_done_callback`.
pub data Callback : Type 0 where
  sd_complete sd_startstop_complete sd_tur_complete scsidirect_complete : Callback
  geom_done_inquiry geom_done_get_capacity : Callback
  geom_done_mode_page_3 geom_done_mode_page_4 geom_done_mode_page_5 : Callback

-- `struct scsipi_xfer` as sd.c fills it in. `ior` is the request's address, `none` for NULL.
pub record Xfer : Type 0 where
  pub cdb : List ℕ
  pub buf : ℕ
  pub buflen : ℕ
  pub retries : ℕ
  pub timeout : ℕ
  pub control : ℕ
  pub ior : Option ℕ
  pub done : Callback

-- What the scsipi layer answers: whether `scsipi_make_xs_locked` found a transfer, and the result
-- of `scsipi_execute_xs`.
pub record Scsipi : Type 0 where
  pub make_xs : Bool
  pub execute_xs : Xfer → ℤ

-- The result code that a function of sd.c returns, and the transfer that it handed over.
pub record Issued : Type 0 where
  pub rc : ℤ
  pub sent : Option Xfer

-- The end that the functions share: get a transfer, or give up with `code`; execute it.
abbrev pub issue : Scsipi → ℤ → Xfer → Issued
issue s code xs =
    if s.make_xs
    then record { rc = s.execute_xs xs; sent = some xs }
    else record { rc = code; sent = none }
