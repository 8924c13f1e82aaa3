-- ===== src/Cmd/Request.antt =====
-- The commands and the request of cmdhandler.c.
use a4091_software.Base.{ℕ, suc, ◌*◌, ◌-◌, ◌%◌, ◌^◌, bit_or}
use a4091_software.Base.Int.{ℤ, to_int8}
use a4091_software.Base.Bits.{shr}

-- io_Command: those that `cmd_do_iorequest` and the tables of cmdhandler.c name.
pub data Command : Type 0 where
  cmd_invalid cmd_reset cmd_read cmd_write cmd_update cmd_clear cmd_stop cmd_start : Command
  cmd_flush td_motor td_seek td_format td_remove td_changenum td_changestate : Command
  td_protstatus td_rawread td_rawwrite td_getgeometry td_getnumtracks : Command
  td_addchangeint td_remchangeint td_eject hd_scsicmd : Command
  td_read64 td_write64 td_seek64 td_format64 : Command
  nscmd_td_read64 nscmd_td_write64 nscmd_td_seek64 nscmd_td_format64 : Command
  nscmd_devicequery cmd_attach cmd_detach cmd_term : Command
  etd_write etd_read etd_motor etd_seek etd_format : Command
  nscmd_etd_read64 nscmd_etd_write64 nscmd_etd_seek64 nscmd_etd_format64 : Command
  other : ℕ → Command

-- `struct IOExtTD` as the driver reads and writes it; `addr` is its address, `replies` counts the
-- calls of ReplyMsg. io_Error is an 8-bit integer.
pub record IoReq : Type 0 where
  pub addr : ℕ
  pub command : Command
  pub data_addr : ℕ
  pub offset : ℕ
  pub length : ℕ
  pub actual : ℕ
  pub count : ℕ
  pub error : ℤ
  pub replies : ℕ

abbrev pub reply : IoReq → IoReq
reply ior = record ior { replies = suc ior.replies }

abbrev pub set_error : ℤ → IoReq → IoReq
set_error rc ior = record ior { error = to_int8 rc }

abbrev pub set_actual : ℕ → IoReq → IoReq
set_actual n ior = record ior { actual = n }

-- The block number of the 64-bit commands: io_Actual holds the high half of the byte offset.
unfoldable pub blkno64 : ℕ → ℕ → ℕ → ℕ
blkno64 actual offset blkshift =
    bit_or (actual * 2 ^ (32 - blkshift) % 2 ^ 64) (shr offset blkshift)
