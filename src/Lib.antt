-- ===== src/Lib.antt =====
-- The A4091 software, the AmigaOS driver of the Commodore A4091 and A4092 SCSI controllers
-- (a4091.device) and its tools.
--
-- A client of the device fills in a request (`struct IOExtTD`, here `Cmd.Request.IoReq`) and sends
-- it to the driver's command handler. The handler (cmdhandler.c) switches on the command, changes
-- the state of the peripheral (`struct scsipi_periph`, here `Periph.Periph`), and calls the SCSI
-- disk layer (sd.c), which builds a SCSI command and hands it to the scsipi layer as a transfer
-- (`struct scsipi_xfer`, here `Scsi.Xfer`). When the transfer has ended, the scsipi layer calls the
-- transfer's callback in sd.c, which translates the result and answers the request, or hands over
-- the next transfer.
--
-- In the boot ROM the mounter (mounter.c) is the first client: it opens each unit, reads the drive's
-- blocks, loads its file systems, and adds its partitions to the mount list. Below the scsipi layer the
-- chip's driver (siop.c) takes the transfers: it puts each one in an ACB, builds its DMA list, and
-- starts it when its LUN is idle and no command has the chip. The callouts of port.c time commands out.
--
-- Files:
--   Base      names and lemmas that all share: Boolean tests, lists, signed integers (`Int`), bit
--             operations (`Bits`), finite tables (`Table`)
--   Codes     the error codes of device.h and of the AmigaOS headers
--   Scsi      big-endian fields of scsipiconf.h, the transfer, and what the scsipi layer answers
--   Periph    the fields of `struct scsipi_periph` that this code reads or writes
--   Sd        sd.c. Errors: translate_xs_error. ReadWrite: sd_readwrite, sd_seek. BlockSize:
--             is_valid_blksize, calc_blkshift. Capacity: sd_read_capacity, sd_blocksize. Media:
--             sd_media_loaded, sd_media_unloaded, call_changeintlist, sd_testunitready,
--             sd_tur_complete (`sd_tur_completed`), sd_testunitready_walk, sd_startstop,
--             sd_startstop_complete. Geometry: sd_getgeometry, its completions geom_done_… (`done_…`
--             and `got_…`), queue_get_mode_page, conv_sectors_to_chs. Direct: sd_scsidirect,
--             scsidirect_complete (`scsidirect_completed`), sd_complete, sd_get_protstatus
--   Cmd       cmdhandler.c. Request: the request and its commands. Dispatch: cmd_do_iorequest, with
--             a function for each case in Cases. ChangeInt: td_addchangeint, td_remchangeint,
--             td_remove. Units: open_unit, close_unit, the list of open units. Loop: a pass of
--             cmd_handler's loop over its port (`pass`); its check of as_exiting is left out
--   Romtool   romtool.c. An image is its inventory (`struct rom_inventory`) and the bytes before it.
--             replace_file, with `lay_out` for the part that writes; Resize: resize, and
--             `resize_option` for its use in main. Bytes: memcpy and memset on lists of bytes
--   Device    device.c: drv_open, drv_close and drv_expunge with the library's open count
--   Battmem   battmem.c: Load_BattMem (`load_battmem`) and Save_BattMem (`save_battmem`)
--   Mounter   mounter.c. Blocks: checksum, readblock. Lseg: lseg_read_longs, lseg_read_long,
--             lseg_read_word. Names: ToUpper (`to_upper`), CompareBSTRNoCase, CheckAndFixDevName.
--             Relocate: fsrelocate, from the header (Header) to the hunks (Load).
--             Scan: ParsePART, AddNode, ParseRDSK and ScanRDSK; the drive is a parameter, `World`.
--             FileSystems: FSHDProcess, FSHDAdd, ParseFSHD, ProcessPatchFlags, find_filesystem.
--             Cdrom: CheckPVD, ScanCDROM. Drive: MountDrive
--   Port      port.c and callout.h. Level: bsd_splbio, bsd_splx. Itoa: itoa. Callout: the callouts on
--             their doubly linked list, callout_reset, callout_stop, callout_run_timeouts
--   Siop      siop.c. Sync: scsi_period_to_siop and the clock periods of siopinitialize. Dma: the list
--             that siop_start builds (`dma_list`) and how siop_checkintr shortens it
--             (`resume_chain`). Mismatch: where siop_checkintr finds that a transfer stopped. Queue:
--             the ACBs (`Acb`) and their places in `struct siop_softc`, siop_scsipi_request,
--             siop_sched, siop_scsidone, siop_timeout, siopreset, and the interrupts (`disconnect`,
--             `reselect`, `complete`); an interrupt that is latched when siopreset looks is an argument of it
--   Attach    attach.c: a4091_validate, the test of a board's registers, over any board (`Registers`)
--   Examples  the theorems at concrete inputs
--
-- A function of the C code is a function of the same name from the state to the new state and the
-- result. What it does besides is a value: the transfer handed over (`Issued`), the interrupts
-- caused (a list), the answer to a request (`Reply`). Where a name is a data constructor's already,
-- the function that the callback runs has a past tense. Machine integers are natural numbers with
-- the wrap-around written out; signed results are `Base.Int.ℤ`.
--
-- The scsipi layer is a copy of NetBSD's and a parameter: `Scsi.Scsipi` says whether a transfer is
-- available and what handing it over returns, the result of a transfer is an argument of the
-- callback, and a command that is waited for is a function from the command to the data. AmigaOS
-- memory allocation is an argument too.
--
-- Fuel: `shift_loop` of calc_blkshift has 33 rounds, since a 32-bit number is 0 after 32 halvings;
-- the loop of conv_sectors_to_chs doubles s from 1 and stops at 32, and has 6 rounds.
-- `checksum` has 16385 rounds, which end for up to 16383 longs; for more the loop never ends.
-- `lseg_read_longs` has two rounds for each long and two more. `fixed_name` has a round for each
-- name and one more, enough where the length byte of the name does not wrap around; `parse_fshd` needs a round for each header it looks at. `scan_rdsk`, `mount_drive`
-- and `parse_fshd` take their fuel as an argument, since a drive can make the loops over its blocks
-- endless; so do the loops of `fsrelocate`. `itoa` has one round more than the
-- value; `callout_run_timeouts` takes its fuel as an argument, since a function that it calls can change
-- the list. `dma_list` has one round more than the buffer's bytes, since each piece has one at
-- least; `siopreset` has a round for each command of the nexus list. All else recurses on its list.
--
-- Not modelled: the scsipi layer (scsipi_base.c, scsiconf.c, scsimsg.c) and the SCRIPTS assembler
-- (ncr53cxxx.c), which are NetBSD's; of siop.c the chip's registers and scripts, polling, the
-- negotiation of synchronous transfers and the other interrupts, also where siopreset looks for one that is latched; printf.c, which is another project's;
-- of mounter.c the discs with other partition tables; the menus, test and dump utilities (bootmenu.c,
-- a4091.c, a4091d.c), which talk to a person or the hardware; of attach.c all but the test of a board,
-- which is mostly calls of AmigaOS; romfile.c; the delays and requesters of port.c; assembly.
pub mod Base
pub mod Codes
pub mod Scsi
pub mod Periph
pub mod Sd
pub mod Cmd
pub mod Romtool
pub mod Device
pub mod Battmem
pub mod Mounter
pub mod Port
pub mod Siop
pub mod Attach
mod Examples
