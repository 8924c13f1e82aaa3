-- ===== src/Cmd/Units.antt =====
-- `open_unit` and `close_unit` of cmdhandler.c: the list of open units, each counted. `allocated`
-- counts the list nodes that AllocMem gave and FreeMem did not get back.
pub mod Refs
pub mod Total
pub mod Failed
use a4091_software.Base.{
  ℕ, suc, ◌+◌, ◌-◌, ◌/◌, ◌%◌, ◌^◌, Bool, true, false, not, ◌||◌, Option, none, some, List, [], ◌∷◌,
  ◌==◌, ltb, if◌then◌else◌,
}
use a4091_software.Base.Int.{ℤ, pos, is_zero}
use a4091_software.Codes

-- `struct unit_list`; `periph` is an address.
pub record Entry : Type 0 where
  pub periph : ℕ
  pub scsi_target : ℕ
  pub count : ℕ

pub record Units : Type 0 where
  pub entries : List Entry
  pub allocated : ℕ

-- The first entry of the target gets one reference more.
pub bump : ℕ → List Entry → Option (ℕ × List Entry)
bump target [] = none
bump target (u ∷ us) =
    let rest = bump target us in
    if u.scsi_target == target
    then some (u.periph, record u { count = (u.count + 1) % 2 ^ 32 } ∷ us)
    else elim rest [ none ↦ none | some (p, vs) ↦ some (p, u ∷ vs) ]

-- What the handler answers to CMD_ATTACH: io_Error and io_Unit, 0 for NULL.
pub record Attached : Type 0 where
  pub error : ℤ
  pub periph : ℕ

-- The state, the result and *io_Unit, `none` where it is not written. TDF_DEBUG_OPEN is bit 7 of
-- the flags; `memory` says whether AllocMem succeeds.
unfoldable pub open_unit :
    (memory : Bool) (attached : Attached) → ℕ → ℕ → Units → Units × ℤ × Option ℕ
unfolding bump
open_unit memory attached target flags s = elim (bump target s.entries) [
  | some (p, us) ↦ (record s { entries = us }, pos 0, some p)
  | none ↦
      if not (flags / 2 ^ 7 % 2 == 0)
      then (s, Codes.bad_unit, none)
      else if not memory
      then (s, Codes.no_memory, none)
      else (let t = record s { allocated = suc s.allocated } in
          if not (is_zero attached.error)
          then (t, attached.error, none)
          else if attached.periph == 0
          then (t, Codes.bad_unit, some 0)
          else (
            record t {
              entries =
                  record { periph = attached.periph; scsi_target = target; count = 1 } ∷ s.entries;
            },
            pos 0,
            some attached.periph,
          ))
]

-- The first entry of the peripheral loses a reference, and goes if none is left.
pub unref : ℕ → List Entry → Option (Bool × List Entry)
unref periph [] = none
unref periph (u ∷ us) =
    let rest = unref periph us in
    if u.periph == periph
    then (let left = (u.count + 2 ^ 32 - 1) % 2 ^ 32 in
        if ltb 0 left then some (false, record u { count = left } ∷ us) else some (true, us))
    else elim rest [ none ↦ none | some (last, vs) ↦ some (last, u ∷ vs) ]

-- The state, and the peripheral that CMD_DETACH is sent for.
unfoldable pub close_unit : ℕ → Units → Units × Option ℕ
unfolding unref
close_unit periph s = elim (unref periph s.entries) [
  | none ↦ (s, none)
  | some (false, us) ↦ (record s { entries = us }, none)
  | some (true, us) ↦ (record { entries = us; allocated = s.allocated - 1 }, some periph)
]
