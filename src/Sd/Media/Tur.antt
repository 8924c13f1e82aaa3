-- ===== src/Sd/Media/Tur.antt =====
-- `sd_testunitready`, `sd_tur_complete` and the start/stop commands of sd.c.
use a4091_software.Base.{
  ℕ, ◌+◌, ◌-◌, ◌*◌, ◌%◌, ◌^◌, Bool, ◌&&◌, Option, none, some, List, [], ◌∷◌, bit_or, ◌==◌,
  if◌then◌else◌,
}
use a4091_software.Base.Int.{ℤ, pos, to_int8}
use a4091_software.Codes
use a4091_software.Scsi.{Scsipi, Issued, sd_tur_complete, sd_startstop_complete, issue}
use a4091_software.Scsi.Ctl
use a4091_software.Periph.{Periph}
use a4091_software.Sd.Errors.{XsResult, xs_sense, no_disk, translate_xs_error}
use a4091_software.Sd.Media.{sd_media_loaded, sd_media_unloaded}

-- A request completed by `cmd_complete`: io_Error, and io_Actual where it was set too.
pub record Reply : Type 0 where
  pub ior : ℕ
  pub error : ℤ
  pub actual : Option ℕ

-- `cmd_complete` does nothing for NULL.
abbrev pub cmd_complete : Option ℕ → ℤ → Option ℕ → Option Reply
cmd_complete none rc actual = none
cmd_complete (some ior) rc actual = some (record { ior = ior; error = to_int8 rc; actual = actual })

-- What a function leaves: the peripheral, what it handed to the scsipi layer, and the request that
-- it completed itself.
pub record Outcome : Type 0 where
  pub periph : Periph
  pub issued : Issued
  pub reply : Option Reply

unfoldable pub sd_testunitready : Scsipi → Periph → Option ℕ → Outcome
sd_testunitready s periph ior =
    if periph.notur
    then record {
      periph = periph;
      issued = record { rc = pos 0; sent = none };
      reply = cmd_complete ior (pos 0) (some 0);
    }
    else record {
      periph =
          if s.make_xs
          then record periph { tur_active = (periph.tur_active + 1) % 2 ^ 32 }
          else periph;
      issued = issue s Codes.no_memory (record {
        cdb = 0x00 ∷ (periph.lun * 2 ^ 5 % 256) ∷ 0 ∷ 0 ∷ 0 ∷ 0 ∷ [];
        buf = 0;
        buflen = 0;
        retries = 0;
        timeout = 2000;
        control =
            bit_or (bit_or Ctl.async Ctl.simple_tag)
              (bit_or Ctl.ignore_not_ready Ctl.ignore_media_change);
        ior = ior;
        done = sd_tur_complete;
      });
      reply = none;
    }

skey_not_ready : ℕ
skey_not_ready = 2

-- What `sd_tur_complete` concludes of the medium before it replies: the peripheral, the interrupts
-- sent, io_Actual and the code.
record Verdict : Type 0 where
  periph : Periph
  signals : List ℕ
  actual : ℕ
  rc : ℤ

tur_verdict : Periph → XsResult → Verdict
unfolding skey_not_ready
tur_verdict p xs =
    if xs.error == xs_sense
    then (if xs.sense_key == skey_not_ready
        then (if no_disk xs.asc xs.ascq
            then (let (q, signals) = sd_media_unloaded p in
                record { periph = q; signals = signals; actual = 2 ^ 32 - 1; rc = pos 0 })
            else (let (q, signals) = sd_media_loaded p in
                record { periph = q; signals = signals; actual = 0; rc = pos 0 }))
        else record { periph = p; signals = []; actual = 0; rc = pos xs.sense_key })
    else (let (q, signals) = sd_media_loaded p in
        record { periph = q; signals = signals; actual = 0; rc = translate_xs_error xs })

unfoldable pub sd_tur_completed : Periph → XsResult → Option ℕ → Periph × List ℕ × Option Reply
unfolding tur_verdict
sd_tur_completed periph xs ior =
    let p = record periph { tur_active = (periph.tur_active + 2 ^ 32 - 1) % 2 ^ 32 } in
    let v = tur_verdict p xs in (v.periph, v.signals, cmd_complete ior v.rc (some v.actual))

-- START STOP UNIT, with or without load or eject. The request's io_Actual is 1 without medium.
unfoldable pub sd_startstop : Scsipi → Periph → Option ℕ → Bool → Bool → Bool → Issued × Option ℕ
sd_startstop s periph ior start load_eject immed = (
  issue s Codes.no_memory (record {
    cdb =
        0x1b
        ∷ (if immed then 1 else 0)
        ∷ 0
        ∷ 0
        ∷ bit_or (if start then 1 else 0) (if load_eject then 2 else 0)
        ∷ 0
        ∷ [];
    buf = 0;
    buflen = 0;
    retries = 1;
    timeout =
        if load_eject then (if start then 45000 else 8000) else (if start then 6000 else 3000);
    control =
        bit_or (bit_or Ctl.async Ctl.simple_tag)
          (bit_or Ctl.ignore_media_change Ctl.ignore_not_ready);
    ior = ior;
    done = sd_startstop_complete;
  }),
  if s.make_xs then some (if periph.media_loaded then 0 else 1) else none,
)

-- "Not ready" with ASC 4 is no failure. Then a TEST UNIT READY of its own looks at the medium,
-- whose result code is dropped.
unfoldable pub sd_startstop_completed : Scsipi → Periph → XsResult → Option ℕ → Outcome
unfolding skey_not_ready sd_testunitready
sd_startstop_completed s periph xs ior =
    let rc =
      if (xs.error == xs_sense) && ((xs.sense_key == skey_not_ready) && (xs.asc == 4))
      then pos 0
      else translate_xs_error xs in
    let tur = sd_testunitready s periph none in
    record { periph = tur.periph; issued = tur.issued; reply = cmd_complete ior rc none }
