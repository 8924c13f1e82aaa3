-- ===== src/Attach.antt =====
-- attach.c: `a4091_validate`, the test of a board's registers before it is used. What writing a register
-- does, and what reading one gives, are arguments.
pub mod Validate
use a4091_software.Base.{
  ℕ, zero, suc, ◌+◌, ◌*◌, ◌/◌, ◌%◌, ◌^◌, Bool, true, false, not, ◌&&◌, ◌||◌, ◌==◌, ltb, leb,
  if◌then◌else◌,
}
use a4091_software.Base.Int.{ℤ, pos, negsuc}
use a4091_software.Codes

-- A board: siop_scratch and siop_temp are read, and written at siop_scratch2 and siop_temp2.
pub record Registers (Board : Type 0) : Type 0 where
  pub scratch : Board → ℕ
  pub temp : Board → ℕ
  pub set_scratch : ℕ → Board → Board
  pub set_temp : ℕ → Board → Board

-- (patt << 1) | (patt >> 31) of 32 bits: the two have no bit in common.
unfoldable pub rotate : ℕ → ℕ
rotate patt = patt * 2 % 2 ^ 32 + patt / 2 ^ 31

abbrev pub first_pattern : ℕ
first_pattern = 0xf0e7c3a5

unfoldable pub is_bad_base : ℕ → Bool
is_bad_base dev_base =
    ltb dev_base 0x10000000 || leb 0xf0000000 dev_base || not (dev_base % 2 ^ 24 == 0)

module _ {Board : Type 0} (r : Registers Board) where
  -- A pattern and the next one are written and read back.
  unfoldable pub write_both : ℕ → Board → Board
  write_both patt b = r.set_temp (rotate patt) (r.set_scratch patt b)

  unfoldable pub reads_back : ℕ → Board → Bool
  reads_back patt b = (r.scratch b == patt) && (r.temp b == rotate patt)

  -- The board after the loop, and whether the test failed.
  unfoldable pub validate_loop : (rounds patt : ℕ) → Board → Board × Bool
  validate_loop zero patt b = (b, false)
  validate_loop (suc rounds) patt b =
      let tested = write_both patt b in
      let rest = validate_loop rounds (rotate patt) tested in
      if reads_back patt tested then rest else (tested, true)

  unfoldable pub a4091_validate : (dev_base : ℕ) → Board → Board × ℤ
  a4091_validate dev_base b =
      let (after, fail) = validate_loop 32 first_pattern b in
      if is_bad_base dev_base then (b, Codes.bad_board) else (
        r.set_temp (r.temp b) (r.set_scratch (r.scratch b) after),
        if fail then Codes.bad_board else pos 0,
      )
