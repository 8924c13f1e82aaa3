-- ===== src/Device/Counted.antt =====
-- The open count is the number of references to open units, so the device goes only when none is
-- open.
use a4091_software.Base.{
  ℕ, ◌+◌, ◌-◌, ◌%◌, ◌^◌, ◌<◌, ◌≡◌, ◌↔◌, ap, sym, ◌∙◌, inl, inr, Bool, true, false, [], arith, ltb,
  Bool-cases,
}
use a4091_software.Base.Int.{is_zero}
use a4091_software.Cmd.Units.{Attached, open_unit, close_unit}
use a4091_software.Cmd.Units.Refs.{has_periph}
use a4091_software.Cmd.Units.Total.{
  total, Positive, Positive-none, Positive-nil, total-nil, open_unit-total, close_unit-total,
}
use a4091_software.Device.{Device, drv_open, drv_close, drv_expunge}

-- The open count is the number of references, and every open unit has one.
pub record IsCounted (d : Device) : Type 0 where
  pub count : d.open_cnt ≡ total d.units.entries
  pub small : d.open_cnt < 2 ^ 16
  pub each : Positive d.units.entries

-- The calls that a device sees: opening, with fewer than 65535 references so far, and closing a
-- unit that is open.
pub data Reachable : Device → Type 0 where
  loaded :
      (allocated : ℕ)
      → Reachable record {
        units = record { entries = []; allocated = allocated };
        open_cnt = 0;
        delexp = false;
      }
  opened :
      (version : ℕ) (memory : Bool) (attached : Attached) (scsi_unit flags : ℕ) (d : Device)
      → d.open_cnt + 1 < 2 ^ 16
      → Reachable d
      → Reachable (drv_open version memory attached scsi_unit flags d).0
  closed :
      (still_attached : Bool) (unit : ℕ) (d : Device)
      → has_periph unit d.units.entries ≡ true
      → Reachable d
      → Reachable (drv_close still_attached unit d).0

open-IsCounted :
    (version : ℕ) (memory : Bool) (attached : Attached) (scsi_unit flags : ℕ) (d : Device)
    → d.open_cnt + 1 < 2 ^ 16
    → IsCounted d
    → IsCounted (drv_open version memory attached scsi_unit flags d).0
unfolding drv_open
open-IsCounted version memory attached scsi_unit flags d b c =
    let (sum, each) =
      open_unit-total memory attached scsi_unit flags d.units (omega (arith, c)) c.each in
    elim (Bool-cases (ltb version 36)) [
      | inl old ↦ rw old c
      | inr new ↦
          elim (Bool-cases (is_zero (open_unit memory attached scsi_unit flags d.units).1)) [
            | inl ok ↦
                rw (new, ok)
                  (record {
                    count = omega (arith, c, rw ok at sum);
                    small = omega arith;
                    each = each;
                  })
            | inr bad ↦
                rw (new, bad)
                  (record {
                    count = omega (arith, c, rw bad at sum);
                    small = omega arith;
                    each = each;
                  })
          ]
    ]

close-fields :
    (still_attached : Bool) (unit : ℕ) (d : Device)
    → ((drv_close still_attached unit d).0.units ≡ (close_unit unit d.units).0)
      × ((drv_close still_attached unit d).0.open_cnt ≡ (d.open_cnt + 2 ^ 16 - 1) % 2 ^ 16)
unfolding drv_close drv_expunge
close-fields still_attached unit d = (ground arith, ground arith)

close-IsCounted :
    (still_attached : Bool) (unit : ℕ) (d : Device)
    → has_periph unit d.units.entries ≡ true
    → IsCounted d
    → IsCounted (drv_close still_attached unit d).0
close-IsCounted still_attached unit d h c =
    let (sum, each) = close_unit-total unit d.units (omega (arith, c)) c.each h in
    let (units, cnt) = close-fields still_attached unit d in
    record {
      count = rw (units, cnt) (omega (arith, c, sum));
      small = rw cnt (omega arith);
      each = rw units each;
    }

Reachable-IsCounted : (d : Device) → Reachable d → IsCounted d
Reachable-IsCounted _ (loaded allocated) = record {
  count = sym total-nil;
  small = omega arith;
  each = Positive-nil;
}
Reachable-IsCounted _ (opened version memory attached scsi_unit flags d b r) =
    open-IsCounted version memory attached scsi_unit flags d b (Reachable-IsCounted d r)
Reachable-IsCounted _ (closed still_attached unit d h r) =
    close-IsCounted still_attached unit d h (Reachable-IsCounted d r)

expunge_iff :
    (still_attached : Bool) (d : Device)
    → ((drv_expunge still_attached d).1 ≡ true) ↔ ((d.open_cnt ≡ 0) × (still_attached ≡ false))
unfolding drv_expunge
expunge_iff still_attached d = ground arith

-- After any calls of drv_open and drv_close, as long as fewer than 65535 references are open at each
-- opening and only open units are closed, drv_expunge lets the device go exactly if no unit is open
-- and no peripheral is still attached.
pub drv_expunge-idle :
    (still_attached : Bool) (d : Device)
    → Reachable d
    → ((drv_expunge still_attached d).1 ≡ true)
      ↔ ((d.units.entries ≡ []) × (still_attached ≡ false))
drv_expunge-idle still_attached d r =
    let c = Reachable-IsCounted d r in
    let (there, back) = expunge_iff still_attached d in
    (
      λ gone. (Positive-none d.units.entries c.each (sym c.count ∙ (there gone).0), (there gone).1),
      λ (none_open, idle). back (c.count ∙ ap total none_open ∙ total-nil, idle),
    )
