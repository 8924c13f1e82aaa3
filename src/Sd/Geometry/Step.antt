-- ===== src/Sd/Geometry/Step.antt =====
-- The chain of commands behind TD_GETGEOMETRY. Each `geom_done_…` function of sd.c is the completion
-- of one command, and starts the next one or completes the request. `buffers` counts the buffers
-- that the chain has allocated and not freed: the INQUIRY data, then the mode page.
use a4091_software.Base.{
  ℕ, ◌+◌, ◌-◌, ◌*◌, ◌%◌, ◌^◌, Bool, true, false, not, ◌&&◌, Option, none, List, [], ◌∷◌, bit_and,
  bit_or, ◌==◌, if◌then◌else◌,
}
use a4091_software.Base.Int.{ℤ, pos, is_zero}
use a4091_software.Codes
use a4091_software.Scsi.{
  Scsipi, Xfer, Issued, Callback, geom_done_inquiry, geom_done_get_capacity, geom_done_mode_page_3,
  geom_done_mode_page_4, geom_done_mode_page_5, u8_at, issue,
}
use a4091_software.Scsi.Ctl
use a4091_software.Periph.{Periph}
use a4091_software.Sd.Errors.{XsResult, translate_xs_error}
use a4091_software.Sd.Geometry.{Geom, Drive, got_capacity, got_page_3, got_page_4, got_page_5}

-- The command under way: the completion function that it will call, and its DBD bit.
pub data Stage : Type 0 where
  inquiry capacity : Stage
  page_3 page_4 page_5 : Bool → Stage

pub record Chain : Type 0 where
  pub ior : Option ℕ
  pub lun : ℕ
  pub drive : Drive
  pub buffers : ℕ

-- The end of a completion function: another command, or the request's completion with a code.
pub data Next : Type 0 where
  sent : Stage → Next
  replied : ℤ → Next

-- What the environment gives one completion: the result and the data of its command, whether a mode
-- page can be allocated, the address and size of the next command's data buffer, and the scsipi
-- layer's answers for that command.
pub record Event : Type 0 where
  pub result : XsResult
  pub data_in : List ℕ
  pub allocated : Bool
  pub buf : ℕ
  pub buflen : ℕ
  pub scsipi : Scsipi

abbrev callback : Stage → Callback
callback inquiry = geom_done_inquiry
callback capacity = geom_done_get_capacity
callback (page_3 dbd) = geom_done_mode_page_3
callback (page_4 dbd) = geom_done_mode_page_4
callback (page_5 dbd) = geom_done_mode_page_5

abbrev dbd_byte : Bool → ℕ
dbd_byte dbd = if dbd then 8 else 0

-- INQUIRY, READ CAPACITY (10) and MODE SENSE (6) of at most 0x16 bytes.
abbrev cdb : ℕ → Stage → List ℕ
cdb lun inquiry = 0x12 ∷ (lun * 2 ^ 5 % 256) ∷ 0 ∷ 0 ∷ 36 ∷ 0 ∷ []
cdb lun capacity = 0x25 ∷ 0 ∷ 0 ∷ 0 ∷ 0 ∷ 0 ∷ 0 ∷ 0 ∷ 0 ∷ 0 ∷ []
cdb lun (page_3 dbd) = 0x1a ∷ dbd_byte dbd ∷ 3 ∷ 0 ∷ 0x16 ∷ 0 ∷ []
cdb lun (page_4 dbd) = 0x1a ∷ dbd_byte dbd ∷ 4 ∷ 0 ∷ 0x16 ∷ 0 ∷ []
cdb lun (page_5 dbd) = 0x1a ∷ dbd_byte dbd ∷ 5 ∷ 0 ∷ 0x16 ∷ 0 ∷ []

abbrev is_inquiry : Stage → Bool
is_inquiry inquiry = true
is_inquiry _ = false

abbrev transfer : Chain → Stage → ℕ → ℕ → Xfer
transfer c stage buf buflen = record {
  cdb = cdb c.lun stage;
  buf = buf;
  buflen = buflen;
  retries = 1;
  timeout = if is_inquiry stage then 8000 else 1000;
  control = bit_or (bit_or Ctl.async Ctl.simple_tag) Ctl.data_in;
  ior = c.ior;
  done = callback stage;
}

-- A mode page is allocated where none was passed on. Without a transfer, or where the transfer is
-- refused, it is freed and the request completed.
queue_get_mode_page : Event → Stage → Bool → Chain → Chain × Next
queue_get_mode_page e stage have_page c =
    let b = if have_page then c.buffers else c.buffers + 1 in
    let r = issue e.scsipi Codes.no_memory (transfer c stage e.buf e.buflen) in
    if not have_page && not e.allocated
    then (c, replied Codes.no_memory)
    else if is_zero r.rc
    then (record c { buffers = b }, sent stage)
    else (record c { buffers = b - 1 }, replied r.rc)

-- Whether the page was asked for with SMS_DBD is what sd.c reads back from the stored command. The scsipi
-- layer puts the LUN into the same byte for a device of SCSI-2 or older, so this is for LUN 0 or a newer one.
done_page_5 : Event → Bool → Chain → Chain × Next
unfolding queue_get_mode_page
done_page_5 e dbd c =
    let rc = translate_xs_error e.result in
    if is_zero rc
    then (record c { drive = got_page_5 e.data_in c.drive; buffers = c.buffers - 1 }, replied rc)
    else if dbd
    then queue_get_mode_page e (page_5 false) true c
    else (record c { buffers = c.buffers - 1 }, replied rc)

done_page_4 : Event → Bool → Chain → Chain × Next
unfolding queue_get_mode_page
done_page_4 e dbd c =
    let rc = translate_xs_error e.result in
    if is_zero rc
    then (record c { drive = got_page_4 e.data_in c.drive; buffers = c.buffers - 1 }, replied rc)
    else if dbd
    then queue_get_mode_page e (page_4 false) true c
    else queue_get_mode_page e (page_5 true) true c

done_page_3 : Event → Bool → Chain → Chain × Next
unfolding queue_get_mode_page
done_page_3 e dbd c =
    if e.result.error == 0
    then queue_get_mode_page e (page_4 true) true
        (record c { drive = got_page_3 e.data_in c.drive })
    else if dbd
    then queue_get_mode_page e (page_3 false) true c
    else queue_get_mode_page e (page_4 true) true c

done_capacity : Event → Chain → Chain × Next
unfolding queue_get_mode_page
done_capacity e c =
    if e.result.error == 0
    then (record c { drive = got_capacity e.data_in c.drive }, replied (pos 0))
    else queue_get_mode_page e (page_3 true) false c

abbrev with_inquiry : List ℕ → Geom → Geom
with_inquiry data_in g = record g {
  device_type = u8_at data_in 0 % 32;
  removable = not (bit_and (u8_at data_in 1) 0x80 == 0);
}

-- The INQUIRY data is freed in any case.
done_inquiry : Event → Chain → Chain × Next
done_inquiry e c =
    let d =
      if e.result.error == 0
      then record (c.drive) { geom = with_inquiry e.data_in c.drive.geom }
      else c.drive in
    let r = issue e.scsipi Codes.no_memory (transfer c capacity e.buf 8) in
    (
      record c { drive = d; buffers = c.buffers - 1 },
      if is_zero r.rc then sent capacity else replied r.rc,
    )

-- The completion of the command under way.
unfoldable pub done : Stage → Event → Chain → Chain × Next
unfolding done_inquiry done_capacity done_page_3 done_page_4 done_page_5
done inquiry e c = done_inquiry e c
done capacity e c = done_capacity e c
done (page_3 dbd) e c = done_page_3 e dbd c
done (page_4 dbd) e c = done_page_4 e dbd c
done (page_5 dbd) e c = done_page_5 e dbd c

abbrev pub empty_geom : ℕ → Geom
empty_geom dev_type = record {
  sector_size = 0;
  total_sectors = 0;
  cylinders = 0;
  cyl_sectors = 0;
  heads = 0;
  track_sectors = 0;
  device_type = dev_type % 32;
  removable = false;
}

abbrev pub start : Periph → Option ℕ → ℕ → Chain
start periph ior buffers = record {
  ior = ior;
  lun = periph.lun;
  drive = record { geom = empty_geom periph.dev_type; blkshift = periph.blkshift };
  buffers = buffers;
}

-- `sd_getgeometry`: the chain, whose first command is the INQUIRY, and its transfer. `allocated`,
-- `buf` and `buflen` are of the buffer for the INQUIRY data.
unfoldable pub sd_getgeometry :
    Scsipi → (allocated : Bool) (buf buflen : ℕ) → Periph → Option ℕ → Chain × Issued
sd_getgeometry s allocated buf buflen periph ior =
    if allocated
    then (start periph ior 1, issue s (pos 1) (transfer (start periph ior 1) inquiry buf buflen))
    else (start periph ior 0, record { rc = Codes.no_memory; sent = none })
