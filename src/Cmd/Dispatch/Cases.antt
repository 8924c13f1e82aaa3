-- ===== src/Cmd/Dispatch/Cases.antt =====
-- The cases of the switch in `cmd_do_iorequest`. Each answers the request, hands a transfer for it
-- to the scsipi layer, or keeps it for later.
use a4091_software.Base.{
  ℕ, ◌*◌, ◌-◌, ◌/◌, ◌%◌, ◌^◌, Bool, true, false, not, ◌||◌, Option, none, some, List, [], ◌∷◌, ◌==◌,
  ltb, if◌then◌else◌,
}
use a4091_software.Base.Bits.{shr}
use a4091_software.Base.Int.{ℤ, pos, is_zero}
use a4091_software.Codes
use a4091_software.Scsi.{Scsipi, Issued}
use a4091_software.Periph.{ChangeInt, Periph}
use a4091_software.Sd.ReadWrite.{sd_readwrite, sd_seek}
use a4091_software.Sd.Capacity.{ModePages, sd_blocksize}
use a4091_software.Sd.Capacity as Capacity
use a4091_software.Sd.Direct.{ScsiCmd, ModeSense, sd_scsidirect, sd_get_protstatus}
use a4091_software.Sd.Media.Tur.{sd_testunitready, sd_startstop}
use a4091_software.Sd.Geometry.Step.{Chain, sd_getgeometry}
use a4091_software.Cmd.ChangeInt.{handler_of, td_addchangeint, td_remchangeint, td_remove}
use a4091_software.Cmd.Request.{IoReq, blkno64, reply, set_error, set_actual}

-- What the code below this file answers while one request is handled: the scsipi layer, `attach`
-- (its result and the new peripheral), and the commands that are waited for. `allocated`, `buf` and
-- `buflen` are the INQUIRY buffer of TD_GETGEOMETRY, `scsi_cmd` is what io_Data points to.
pub record Env : Type 0 where
  pub scsipi : Scsipi
  pub attach : ℕ → ℕ → ℤ × Periph
  pub capacity : Capacity.Command
  pub pages : ModePages
  pub prot_page : ModeSense
  pub allocated : Bool
  pub buf : ℕ
  pub buflen : ℕ
  pub scsi_cmd : ScsiCmd

-- The calls that end the handler, and `detach`.
pub data Event : Type 0 where
  detach deinit_chan close_timer clear_isr free_private free_asave delete_port : Event

-- `struct NSDeviceQueryResult` without the pointer to the command list.
pub record NsdResult : Type 0 where
  pub format : ℕ
  pub size_available : ℕ
  pub device_type : ℕ
  pub device_sub_type : ℕ

-- The request and the peripheral afterwards, what was handed to the scsipi layer with its result
-- code, the data behind io_Data, the calls made, and the result (the handler's exit).
pub record Handled : Type 0 where
  pub ior : IoReq
  pub periph : Periph
  pub issued : Issued
  pub scsi_cmd : ScsiCmd
  pub geometry : Option Chain
  pub query : Option NsdResult
  pub events : List Event
  pub exit : Bool

abbrev nothing_issued : Issued
nothing_issued = record { rc = pos 0; sent = none }

abbrev pub unchanged : Env → IoReq → Periph → Handled
unchanged env ior periph = record {
  ior = ior;
  periph = periph;
  issued = nothing_issued;
  scsi_cmd = env.scsi_cmd;
  geometry = none;
  query = none;
  events = [];
  exit = false;
}

-- `if (rc != 0) { io_Error = rc; ReplyMsg }`.
abbrev fail_on : ℤ → IoReq → IoReq
fail_on rc ior = if is_zero rc then ior else reply (set_error rc ior)

abbrev with_issued : Env → IoReq → Periph → Issued → Handled
with_issued env ior periph r = record (unchanged env (fail_on r.rc ior) periph) { issued = r }

-- The common part of reads and writes. The length 0 goes to `io_done`.
rw_at : Bool → ℕ → Env → IoReq → Periph → Handled
rw_at read blkno env ior periph =
    if ior.length == 0
    then unchanged env (reply (set_actual 0 ior)) periph
    else (let r =
          sd_readwrite env.scsipi periph blkno read ior.data_addr ior.length (some ior.addr) in
        record (unchanged env
          (if is_zero r.rc
            then set_actual ior.length ior
            else reply (set_actual 0 (set_error r.rc ior)))
          periph) { issued = r })

unfoldable pub do_rw : Bool → Env → IoReq → Periph → Handled
unfolding rw_at
do_rw read env ior periph = rw_at read (shr ior.offset periph.blkshift) env ior periph

unfoldable pub do_rw64 : Bool → Env → IoReq → Periph → Handled
unfolding rw_at
do_rw64 read env ior periph =
    rw_at read (blkno64 ior.actual ior.offset periph.blkshift) env ior periph

unfoldable pub do_scsi : Env → IoReq → Periph → Handled
do_scsi env ior periph =
    let (c, r) = sd_scsidirect env.scsipi env.scsi_cmd (some ior.addr) in
    record (with_issued env ior periph r) { scsi_cmd = c }

unfoldable pub do_seek : Env → IoReq → Periph → Handled
do_seek env ior periph =
    with_issued env ior periph (sd_seek env.scsipi (shr ior.offset periph.blkshift) (some ior.addr))

unfoldable pub do_seek64 : Env → IoReq → Periph → Handled
do_seek64 env ior periph =
    with_issued env ior periph
      (sd_seek env.scsipi (blkno64 ior.actual ior.offset periph.blkshift) (some ior.addr))

abbrev sizeof_drive_geometry : ℕ
sizeof_drive_geometry = 32

unfoldable pub do_geometry : Env → IoReq → Periph → Handled
do_geometry env ior periph =
    if ltb ior.length sizeof_drive_geometry
    then unchanged env (reply (set_error Codes.bad_length ior)) periph
    else (let (chain, r) =
          sd_getgeometry env.scsipi env.allocated env.buf env.buflen periph (some ior.addr) in
        record (with_issued env ior periph r) { geometry = some chain })

abbrev sizeof_nsd : ℕ
sizeof_nsd = 16

unfoldable pub do_query : Env → IoReq → Periph → Handled
do_query env ior periph =
    if ltb ior.length sizeof_nsd
    then unchanged env (reply (set_error Codes.bad_length ior)) periph
    else record (unchanged env (reply (set_actual sizeof_nsd ior)) periph) {
      query = some (record {
        format = 0;
        size_available = sizeof_nsd;
        device_type = 5;
        device_sub_type = 0;
      });
    }

unfoldable pub do_protstatus : Env → IoReq → Periph → Handled
do_protstatus env ior periph =
    let (rc, status) = sd_get_protstatus env.prot_page in
    unchanged env (reply (set_error rc (set_actual status ior))) periph

unfoldable pub do_changenum : Env → IoReq → Periph → Handled
do_changenum env ior periph = unchanged env (reply (set_actual periph.changenum ior)) periph

-- A peripheral without TEST UNIT READY has completed the request at once.
unfoldable pub do_changestate : Env → IoReq → Periph → Handled
do_changestate env ior periph =
    let out = sd_testunitready env.scsipi periph (some ior.addr) in
    elim out.reply [
      | none ↦ with_issued env ior out.periph out.issued
      | some r ↦
          with_issued env (reply (set_actual 0 (set_error r.error ior))) out.periph out.issued
    ]

-- The io_Actual that `sd_startstop` sets.
abbrev set_previous : Option ℕ → IoReq → IoReq
set_previous none ior = ior
set_previous (some n) ior = set_actual n ior

abbrev startstop : Env → IoReq → Periph → Bool → Bool → Bool → Handled
startstop env ior periph start load_eject immed =
    let (r, previous) = sd_startstop env.scsipi periph (some ior.addr) start load_eject immed in
    with_issued env (set_previous previous ior) periph r

unfoldable pub do_startstop : Bool → Env → IoReq → Periph → Handled
do_startstop start env ior periph = startstop env ior periph start false false

-- io_Length without bit 1: 0 loads, 1 ejects. Bit 1 asks for an immediate return.
unfoldable pub do_eject : Env → IoReq → Periph → Handled
do_eject env ior periph =
    let action = ior.length - ior.length / 2 % 2 * 2 in
    let immed = ior.length / 2 % 2 == 1 in
    if action == 0 || action == 1
    then startstop env ior periph (action == 0) true immed
    else unchanged env (reply (set_error Codes.bad_length ior)) periph

-- TDF_DEBUG_OPEN is bit 7 of the flags in io_Length.
unfoldable pub do_attach : Env → IoReq → Periph → Handled
do_attach env ior periph =
    let (rc, attached) = env.attach ior.offset ior.length in
    if not (is_zero rc)
    then unchanged env (reply (set_error rc ior)) attached
    else if ior.length / 2 ^ 7 % 2 == 0
    then elim (sd_blocksize env.capacity env.allocated env.pages attached) [
      | none ↦ unchanged env (reply ior) attached
      | some (size, probed) ↦ unchanged env (reply ior) probed
    ]
    else unchanged env (reply ior) attached

unfoldable pub do_detach : Env → IoReq → Periph → Handled
do_detach env ior periph = record (unchanged env (reply ior) periph) { events = detach ∷ [] }

unfoldable pub do_term : Env → IoReq → Periph → Handled
do_term env ior periph = record (unchanged env (reply ior) periph) {
  events = deinit_chan ∷ close_timer ∷ clear_isr ∷ free_private ∷ free_asave ∷ delete_port ∷ [];
  exit = true;
}

-- The request stays on the list and is not replied to.
unfoldable pub do_add : Env → IoReq → Periph → Handled
do_add env ior periph =
    let node : ChangeInt = record { ior = ior.addr; handler = handler_of ior.data_addr } in
    let (p, rc) = td_addchangeint node periph in unchanged env (set_error rc ior) p

unfoldable pub do_rem : Env → IoReq → Periph → Handled
do_rem env ior periph =
    let (p, rc) = td_remchangeint ior.addr periph in unchanged env (reply (set_error rc ior)) p

unfoldable pub do_remove : Env → IoReq → Periph → Handled
do_remove env ior periph =
    let (p, rc) = td_remove ior.data_addr periph in unchanged env (reply (set_error rc ior)) p

unfoldable pub do_nothing : Env → IoReq → Periph → Handled
do_nothing env ior periph = unchanged env (reply ior) periph

unfoldable pub do_unknown : Env → IoReq → Periph → Handled
do_unknown env ior periph = unchanged env (reply (set_error Codes.unknown_command ior)) periph
