-- ===== src/Cmd/Dispatch/Once.antt =====
-- Every request is answered once, or is in one other place that will answer it.
use a4091_software.Base.{
  ℕ, ◌+◌, ◌≡◌, Bool, true, false, Option, none, some, arith, ltb, Bool-cases, Option-cases, inl,
  inr,
}
use a4091_software.Base.Int.{pos, is_zero}
use a4091_software.Scsi.{Issued}
use a4091_software.Periph.{Periph}
use a4091_software.Sd.ReadWrite.{sd_readwrite, sd_seek}
use a4091_software.Sd.Direct.{sd_scsidirect}
use a4091_software.Sd.Media.Tur.{sd_testunitready, sd_startstop}
use a4091_software.Sd.Geometry.Step.{sd_getgeometry}
use a4091_software.Cmd.Request.{
  Command, cmd_read, cmd_write, cmd_stop, cmd_start, td_seek, td_format, td_changestate,
  td_protstatus, td_getgeometry, td_addchangeint, td_remchangeint, td_eject, hd_scsicmd, td_read64,
  td_write64, td_seek64, td_format64, nscmd_td_read64, nscmd_td_write64, nscmd_td_seek64,
  nscmd_td_format64, nscmd_devicequery, cmd_attach, IoReq, set_error,
}
use a4091_software.Cmd.Dispatch.{switch, extended, cmd_do_iorequest}
use a4091_software.Cmd.Dispatch.Cases.{
  Env, Handled, do_rw, do_rw64, do_scsi, do_seek, do_seek64, do_geometry, do_query, do_protstatus,
  do_changenum, do_changestate, do_startstop, do_eject, do_attach, do_detach, do_term, do_add,
  do_rem, do_remove, do_nothing, do_unknown,
}

-- Whether the scsipi layer took a transfer for the request: it was given one and returned 0.
abbrev pub taken_of {ℓ} : {A : Type ℓ} → Option A → Bool → ℕ
taken_of none accepted = 0
taken_of (some xs) true = 1
taken_of (some xs) false = 0

abbrev pub taken : Issued → ℕ
taken r = taken_of r.sent (is_zero r.rc)

-- TD_ADDCHANGEINT keeps its request on the peripheral's list.
abbrev pub kept : Command → ℕ
kept td_addchangeint = 1
kept _ = 0

abbrev pub Once : ℕ → IoReq → Handled → Type 0
Once kept ior h = h.ior.replies + taken h.issued + kept ≡ ior.replies + 1

module _ (env : Env) (ior : IoReq) (p : Periph) where
  rw-Once : (read : Bool) → Once 0 ior (do_rw read env ior p)
  unfolding do_rw sd_readwrite
  rw-Once read = ground arith

  rw64-Once : (read : Bool) → Once 0 ior (do_rw64 read env ior p)
  unfolding do_rw64 sd_readwrite
  rw64-Once read = ground arith

  scsi-Once : Once 0 ior (do_scsi env ior p)
  unfolding do_scsi sd_scsidirect
  scsi-Once = ground arith

  seek-Once : Once 0 ior (do_seek env ior p)
  unfolding do_seek sd_seek
  seek-Once = ground arith

  seek64-Once : Once 0 ior (do_seek64 env ior p)
  unfolding do_seek64 sd_seek
  seek64-Once = ground arith

  geometry-Once : Once 0 ior (do_geometry env ior p)
  unfolding do_geometry sd_getgeometry
  geometry-Once = ground arith

  query-Once : Once 0 ior (do_query env ior p)
  unfolding do_query
  query-Once = ground arith

  protstatus-Once : Once 0 ior (do_protstatus env ior p)
  unfolding do_protstatus
  protstatus-Once = ground arith

  changestate-Once : Once 0 ior (do_changestate env ior p)
  unfolding do_changestate sd_testunitready
  changestate-Once = ground arith

  startstop-Once : (start : Bool) → Once 0 ior (do_startstop start env ior p)
  unfolding do_startstop sd_startstop
  startstop-Once start = ground arith

  eject-Once : Once 0 ior (do_eject env ior p)
  unfolding do_eject sd_startstop
  eject-Once = ground arith

  attach-Once : Once 0 ior (do_attach env ior p)
  unfolding do_attach
  attach-Once = ground arith

  add-Once : Once 1 ior (do_add env ior p)
  unfolding do_add
  add-Once = ground arith

  rem-Once : Once 0 ior (do_rem env ior p)
  unfolding do_rem
  rem-Once = ground arith

switch-Once :
    (c : Command) (env : Env) (ior : IoReq) (p : Periph) → Once (kept c) ior (switch c env ior p)
unfolding switch do_changenum do_detach do_term do_remove do_nothing do_unknown
switch-Once cmd_read env ior p = rw-Once env ior p true
switch-Once cmd_write env ior p = rw-Once env ior p false
switch-Once td_format env ior p = rw-Once env ior p false
switch-Once hd_scsicmd env ior p = scsi-Once env ior p
switch-Once nscmd_td_read64 env ior p = rw64-Once env ior p true
switch-Once td_read64 env ior p = rw64-Once env ior p true
switch-Once nscmd_td_format64 env ior p = rw64-Once env ior p false
switch-Once nscmd_td_write64 env ior p = rw64-Once env ior p false
switch-Once td_format64 env ior p = rw64-Once env ior p false
switch-Once td_write64 env ior p = rw64-Once env ior p false
switch-Once nscmd_td_seek64 env ior p = seek64-Once env ior p
switch-Once td_seek64 env ior p = seek64-Once env ior p
switch-Once td_seek env ior p = seek-Once env ior p
switch-Once td_getgeometry env ior p = geometry-Once env ior p
switch-Once nscmd_devicequery env ior p = query-Once env ior p
switch-Once td_protstatus env ior p = protstatus-Once env ior p
switch-Once td_changestate env ior p = changestate-Once env ior p
switch-Once cmd_stop env ior p = startstop-Once env ior p false
switch-Once cmd_start env ior p = startstop-Once env ior p true
switch-Once td_eject env ior p = eject-Once env ior p
switch-Once cmd_attach env ior p = attach-Once env ior p
switch-Once td_addchangeint env ior p = add-Once env ior p
switch-Once td_remchangeint env ior p = rem-Once env ior p
switch-Once _ env ior p = omega arith

-- No extended command is, or stands for, TD_ADDCHANGEINT.
extended-kept : (c cmd : Command) → extended c ≡ some cmd → (kept c ≡ 0) × (kept cmd ≡ 0)
unfolding extended
extended-kept c cmd h = ground arith

extended-Once :
    (env : Env) (ior : IoReq) (p : Periph) (cmd : Command)
    → extended ior.command ≡ some cmd
    → Once 0 ior (cmd_do_iorequest env ior p)
unfolding cmd_do_iorequest
extended-Once env ior p cmd e = elim (Bool-cases (ltb ior.count p.changenum)) [
  | inl old ↦ rw (e, cmd_do_iorequest) (rw old (omega arith))
  | inr fresh ↦
      rw (e, cmd_do_iorequest)
        (rw fresh (
          rw ((extended-kept ior.command cmd e).1) at
            (switch-Once cmd env (set_error (pos 0) ior) p)))
]

plain-Once :
    (env : Env) (ior : IoReq) (p : Periph)
    → extended ior.command ≡ none
    → Once (kept ior.command) ior (cmd_do_iorequest env ior p)
unfolding cmd_do_iorequest
plain-Once env ior p e =
    rw (e, cmd_do_iorequest) (switch-Once ior.command env (set_error (pos 0) ior) p)

-- Every request is answered exactly once: one call of `cmd_do_iorequest` either replies to it, or
-- the scsipi layer has taken a transfer for it, or it is a TD_ADDCHANGEINT, which is kept, and
-- never two of these. That holds for every command and every answer of the layers below.
pub cmd_do_iorequest-Once :
    (env : Env) (ior : IoReq) (p : Periph)
    → Once (kept ior.command) ior (cmd_do_iorequest env ior p)
cmd_do_iorequest-Once env ior p = elim (Option-cases (extended ior.command)) [
  | inl e ↦ plain-Once env ior p e
  | inr (cmd, e) ↦ rw ((extended-kept ior.command cmd e).0) (extended-Once env ior p cmd e)
]
