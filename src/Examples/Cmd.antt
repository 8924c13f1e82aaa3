-- ===== src/Examples/Cmd.antt =====
-- The theorems about cmdhandler.c at concrete requests and units.
use a4091_software.Base.{
  ℕ, ◌-◌, false, ◌+◌, ◌*◌, ◌/◌, ◌^◌, ◌≡◌, refl, true, none, some, [], ◌∷◌, arith, if◌then◌else◌,
}
use a4091_software.Base.Bits.{shr}
use a4091_software.Base.Int.{pos}
use a4091_software.Codes
use a4091_software.Periph.{ChangeInt}
use a4091_software.Sd.Direct.{failed}
use a4091_software.Sd.ReadWrite.Decode.{Asks}
use a4091_software.Sd.Media.Count.{watch, changes}
use a4091_software.Cmd.Request.{Command, cmd_read, td_read64, etd_read, IoReq, reply, set_error}
use a4091_software.Cmd.Dispatch.{extended, cmd_do_iorequest}
use a4091_software.Cmd.Dispatch.Cases.{Env, unchanged}
use a4091_software.Cmd.Dispatch.Once.{Once, kept, cmd_do_iorequest-Once}
use a4091_software.Cmd.Dispatch.Blocks.{rw64_direction, cmd_do_iorequest-block64}
use a4091_software.Cmd.Dispatch.Errors.{cmd_do_iorequest-changed}
use a4091_software.Cmd.Loop.{Handler, pass}
use a4091_software.Cmd.Loop.Throttle.{IsInOrder, pass-IsInOrder}
use a4091_software.Cmd.Units.{Units, Attached, open_unit, close_unit}
use a4091_software.Cmd.Units.Failed.{has_target}
use a4091_software.Cmd.Units.Refs.{has_periph, Distinct, close_unit-open}
use a4091_software.Examples.Sd.{willing, drive, good, ejected, direct, no_pages}

abbrev env : Env
env = record {
  scsipi = willing;
  attach = λ target flags. (pos 46, drive);
  capacity = λ cdb len. none;
  pages = no_pages;
  prot_page = failed (pos 45);
  allocated = true;
  buf = 0x1000;
  buflen = 36;
  scsi_cmd = direct;
}

abbrev request : Command → IoReq
request command = record {
  addr = 0x5000;
  command = command;
  data_addr = 0x6000;
  offset = 0x200;
  length = 1024;
  actual = 1;
  count = 1;
  error = pos 0;
  replies = 0;
}

cmd_do_iorequest-Once_example :
    Once
      (kept (request cmd_read).command)
      (request cmd_read)
      (cmd_do_iorequest env (request cmd_read) drive)
cmd_do_iorequest-Once_example = cmd_do_iorequest-Once env (request cmd_read) drive

-- Byte 0x1_0000_0200 is block 0x800001.
cmd_do_iorequest-block64_example :
    Asks
      (cmd_do_iorequest env (request td_read64) drive).issued
      (some 0x5000)
      (true, (1 * 2 ^ 32 + 0x200) / 2 ^ 9, shr 1024 9)
unfolding rw64_direction
cmd_do_iorequest-block64_example =
    cmd_do_iorequest-block64 env (request td_read64) drive true refl refl (omega arith)
      (omega arith) (omega arith) (omega arith) (omega arith) (omega arith)

cmd_do_iorequest-changed_example :
    cmd_do_iorequest env (request etd_read) (watch drive (ejected ∷ good ∷ []))
    ≡ unchanged env
        (reply (set_error Codes.disk_changed (request etd_read)))
        (watch drive (ejected ∷ good ∷ []))
unfolding extended changes
cmd_do_iorequest-changed_example =
    cmd_do_iorequest-changed env (request etd_read) drive cmd_read (ejected ∷ good ∷ []) refl refl
      (omega arith) (omega arith)

abbrev node : ChangeInt
node = record { ior = 0x5000; handler = some 0x6000 }

abbrev units : Units
units = record {
  entries =
      record { periph = 0x7000; scsi_target = 3; count = 2 }
      ∷ record { periph = 0x8000; scsi_target = 5; count = 1 }
      ∷ [];
  allocated = 2;
}

abbrev new_unit : Attached
new_unit = record { error = pos 0; periph = 0x9000 }

units-Distinct : Distinct 10 units.entries
unfolding Distinct has_target has_periph
units-Distinct = ground arith

close_unit-open_example :
    close_unit 0x9000 (open_unit true new_unit 6 0 units).0
    ≡ (units, if has_target 6 units.entries then none else some 0x9000)
unfolding open_unit
close_unit-open_example =
    close_unit-open 10 true new_unit 6 0 units (omega arith) units-Distinct refl

-- Every request starts a command, and the completion queue ends one.
abbrev counter : Handler ℕ ℕ
counter = record {
  do_request = λ ior s. (s + 1, false);
  background = λ s. s;
  completion_poll = λ s. s - 1;
  active = λ s. s;
}

pass-IsInOrder_example : IsInOrder counter (1 ∷ 2 ∷ 3 ∷ []) 19 (pass counter (1 ∷ 2 ∷ 3 ∷ []) 19)
pass-IsInOrder_example = pass-IsInOrder counter (1 ∷ 2 ∷ 3 ∷ []) 19
