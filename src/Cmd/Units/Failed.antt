-- ===== src/Cmd/Units/Failed.antt =====
-- What `open_unit` leaves where the attach fails.
use a4091_software.Base.{
  ℕ, suc, ◌/◌, ◌%◌, ◌^◌, ◌≡◌, ◌≢◌, refl, Bool, true, false, ◌||◌, none, List, [], ◌∷◌, ◌==◌, arith,
}
use a4091_software.Base.Int.{pos, is_zero_of_ne}
use a4091_software.Cmd.Units.{Entry, Units, Attached, bump, open_unit}

unfoldable pub has_target : ℕ → List Entry → Bool
has_target target [] = false
has_target target (u ∷ us) = u.scsi_target == target || has_target target us

pub bump-none :
    (target : ℕ) (us : List Entry) → has_target target us ≡ false → bump target us ≡ none
unfolding bump has_target
bump-none target [] h = refl
bump-none target (u ∷ us) h = ground (arith, bump-none target us)

-- Where a unit that is not open cannot be attached, `open_unit` returns the error of the attach and
-- the list of units is as before, but the list node that it allocated stays allocated.
pub open_unit-leak :
    (attached : Attached) (target flags : ℕ) (s : Units)
    → has_target target s.entries ≡ false
    → flags / 2 ^ 7 % 2 ≡ 0
    → attached.error ≢ pos 0
    → open_unit true attached target flags s
      ≡ (record s { allocated = suc s.allocated }, attached.error, none)
unfolding open_unit
open_unit-leak attached target flags s closed normal failed =
    rw (bump-none target s.entries closed, open_unit) (rw (normal, is_zero_of_ne _ failed))
