-- ===== src/Cmd/Dispatch.antt =====
-- `cmd_do_iorequest` of cmdhandler.c: the change-count check of the extended commands, the switch,
-- and each of its cases. The debugging output is left out; TD_SEEK is in (ENABLE_SEEK is set in the
-- Makefile), TD_GETDRIVETYPE is not (OLD_NSD_IDENTIFY is not set).
pub mod Cases
pub mod Once
pub mod Blocks
pub mod Errors
use a4091_software.Base.{
  ℕ, suc, ◌+◌, ◌*◌, ◌-◌, ◌/◌, ◌%◌, ◌^◌, Bool, true, false, not, ◌&&◌, Option, none, some, List, [],
  ◌∷◌, ◌==◌, ltb, if◌then◌else◌,
}
use a4091_software.Base.Int.{pos}
use a4091_software.Codes
use a4091_software.Periph.{Periph}
use a4091_software.Cmd.Request.{
  Command, cmd_invalid, cmd_reset, cmd_read, cmd_write, cmd_update, cmd_clear, cmd_stop, cmd_start,
  cmd_flush, td_motor, td_seek, td_format, td_remove, td_changenum, td_changestate, td_protstatus,
  td_rawread, td_rawwrite, td_getgeometry, td_getnumtracks, td_addchangeint, td_remchangeint,
  td_eject, hd_scsicmd, td_read64, td_write64, td_seek64, td_format64, nscmd_td_read64,
  nscmd_td_write64, nscmd_td_seek64, nscmd_td_format64, nscmd_devicequery, cmd_attach, cmd_detach,
  cmd_term, etd_write, etd_read, etd_motor, etd_seek, etd_format, nscmd_etd_read64,
  nscmd_etd_write64, nscmd_etd_seek64, nscmd_etd_format64, other, IoReq, reply, set_error,
}
use Cases.{
  Env, Handled, unchanged, do_rw, do_rw64, do_scsi, do_seek, do_seek64, do_geometry, do_query,
  do_protstatus, do_changenum, do_changestate, do_startstop, do_eject, do_attach, do_detach,
  do_term, do_add, do_rem, do_remove, do_nothing, do_unknown,
}

-- The commands that carry a change count, and the command without that bit.
unfoldable pub extended : Command → Option Command
extended etd_write = some cmd_write
extended etd_read = some cmd_read
extended etd_motor = some td_motor
extended etd_seek = some td_seek
extended etd_format = some td_format
extended nscmd_etd_read64 = some nscmd_td_read64
extended nscmd_etd_write64 = some nscmd_td_write64
extended nscmd_etd_seek64 = some nscmd_td_seek64
extended nscmd_etd_format64 = some nscmd_td_format64
extended _ = none

-- The second switch. The names are those of its case labels; `do_unknown` is the default.
switch : Command → Env → IoReq → Periph → Handled
switch cmd_read = do_rw true
switch cmd_write = do_rw false
switch td_format = do_rw false
switch hd_scsicmd = do_scsi
switch nscmd_td_read64 = do_rw64 true
switch td_read64 = do_rw64 true
switch nscmd_td_format64 = do_rw64 false
switch nscmd_td_write64 = do_rw64 false
switch td_format64 = do_rw64 false
switch td_write64 = do_rw64 false
switch nscmd_td_seek64 = do_seek64
switch td_seek64 = do_seek64
switch td_seek = do_seek
switch td_getgeometry = do_geometry
switch nscmd_devicequery = do_query
switch td_protstatus = do_protstatus
switch td_changenum = do_changenum
switch td_changestate = do_changestate
switch cmd_stop = do_startstop false
switch cmd_start = do_startstop true
switch td_eject = do_eject
switch cmd_attach = do_attach
switch cmd_detach = do_detach
switch cmd_term = do_term
switch td_addchangeint = do_add
switch td_remchangeint = do_rem
switch td_remove = do_remove
switch td_motor = do_nothing
switch cmd_update = do_nothing
switch cmd_clear = do_nothing
switch _ = do_unknown

-- An extended command is refused if the medium has changed since the caller's count.
unfoldable pub cmd_do_iorequest : Env → IoReq → Periph → Handled
unfolding extended switch
cmd_do_iorequest env request periph =
    let ior = set_error (pos 0) request in
    elim (extended request.command) [
      | none ↦ switch request.command env ior periph
      | some cmd ↦
          if ltb ior.count periph.changenum
          then unchanged env (reply (set_error Codes.disk_changed ior)) periph
          else switch cmd env ior periph
    ]
