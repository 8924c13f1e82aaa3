-- ===== src/Attach/Validate.antt =====
-- What `a4091_validate` of attach.c finds out.
use a4091_software.Base.{
  ℕ, zero, suc, ◌/◌, ◌%◌, ◌^◌, ◌<◌, ◌≡◌, refl, ◌∙◌, ◌⊎◌, inl, inr, Bool, true, false, not, ◌&&◌,
  ◌==◌, ltb, leb, arith, Bool-cases, ◌*◌, ◌≤◌, ◌↔◌,
}
use a4091_software.Base.Int.{pos}
use a4091_software.Base.Table.{every_below, every_below_lem}
use a4091_software.Codes
use a4091_software.Attach.{
  Registers, rotate, first_pattern, is_bad_base, write_both, reads_back, validate_loop,
  a4091_validate,
}

-- Bit j of what a register reads in some rounds is always v.
always : (j v : ℕ) → (reading : ℕ → ℕ) → (rounds patt : ℕ) → Bool
always j v reading zero patt = true
always j v reading (suc rounds) patt =
    let rest = always j v reading rounds (rotate patt) in (reading patt / 2 ^ j % 2 == v) && rest

-- No bit is the same in all the patterns.
changes : (ℕ → ℕ) → ℕ → Bool
changes reading j =
    not (always j 0 reading 32 first_pattern) && not (always j 1 reading 32 first_pattern)

scratch_changes : every_below 32 (changes (λ patt. patt)) ≡ true
unfolding every_below changes always rotate
scratch_changes = refl

temp_changes : every_below 32 (changes rotate) ≡ true
unfolding every_below changes always rotate
temp_changes = refl

not_always :
    (reading : ℕ → ℕ) (j v : ℕ)
    → every_below 32 (changes reading) ≡ true
    → j < 32
    → v < 2
    → always j v reading 32 first_pattern ≡ true
    → ⊥
unfolding changes
not_always reading j v all small bit same =
    let both = every_below_lem 32 (changes reading) j all small in
    let which : (v ≡ 0) ⊎ (v ≡ 1) = omega arith in
    elim which [ inl e ↦ clash0 (rw e at same) both | inr e ↦ clash1 (rw e at same) both ]
  where
    clash0 :
        always j 0 reading 32 first_pattern ≡ true
        → (not (always j 0 reading 32 first_pattern) && not (always j 1 reading 32 first_pattern))
          ≡ true
        → ⊥
    clash0 h k = ground arith

    clash1 :
        always j 1 reading 32 first_pattern ≡ true
        → (not (always j 0 reading 32 first_pattern) && not (always j 1 reading 32 first_pattern))
          ≡ true
        → ⊥
    clash1 h k = ground arith

-- The addresses that a Zorro III board of 16 MB can have: a multiple of 2 ^ 24, from 0x10000000 to
-- 0xef000000.
unfoldable pub IsBoardBase : ℕ → Type 0
IsBoardBase dev_base = (n : ℕ) × (16 ≤ n) × (n ≤ 239) × (dev_base ≡ n * 2 ^ 24)

good_base : (dev_base : ℕ) → IsBoardBase dev_base → is_bad_base dev_base ≡ false
unfolding IsBoardBase is_bad_base
good_base dev_base (n, low, high, e) =
    let whole : dev_base % 2 ^ 24 ≡ 0 = omega arith in
    let least : ltb dev_base 0x10000000 ≡ false = ground arith in
    let most : leb 0xf0000000 dev_base ≡ false = ground arith in
    let round : (dev_base % 2 ^ 24 == 0) ≡ true = ground arith in rw (least, most, round) refl

board_base : (dev_base : ℕ) → is_bad_base dev_base ≡ false → IsBoardBase dev_base
unfolding IsBoardBase is_bad_base
board_base dev_base good =
    let (least, most, whole) : (0x10000000 ≤ dev_base)
        × (dev_base < 0xf0000000)
        × (dev_base % 2 ^ 24 ≡ 0) =
      ground arith in
    (dev_base / 2 ^ 24, omega arith, omega arith, omega arith)

codes_differ : Codes.bad_board ≡ pos 0 → ⊥
codes_differ e = cc e

module _ {Board : Type 0} (r : Registers Board) where
  -- Each register keeps what is written to it.
  unfoldable pub IsMemory : Type 0
  IsMemory =
      ((v : ℕ) (b : Board) → r.scratch (r.set_scratch v b) ≡ v)
      × ((v : ℕ) (b : Board) → r.scratch (r.set_temp v b) ≡ r.scratch b)
      × ((v : ℕ) (b : Board) → r.temp (r.set_temp v b) ≡ v)

  both_read : IsMemory → (patt : ℕ) (b : Board) → reads_back r patt (write_both r patt b) ≡ true
  unfolding IsMemory reads_back write_both
  both_read (own, other, temp) patt b =
      let s : r.scratch (r.set_temp (rotate patt) (r.set_scratch patt b)) ≡ patt =
        other (rotate patt) (r.set_scratch patt b) ∙ own patt b in
      let t = temp (rotate patt) (r.set_scratch patt b) in ground arith

  loop_passes : IsMemory → (rounds patt : ℕ) (b : Board) → (validate_loop r rounds patt b).1 ≡ false
  unfolding validate_loop
  loop_passes m zero patt b = refl
  loop_passes m (suc rounds) patt b =
      rw (both_read m patt b) (loop_passes m rounds (rotate patt) (write_both r patt b))

  -- Where the registers keep what is written to them, `a4091_validate` answers 0 exactly for the multiples of
  -- 2 ^ 24 from 16 * 2 ^ 24 to 239 * 2 ^ 24, and the error of a bad board for any other address; it leaves
  -- both registers as it found them.
  pub a4091_validate-restores :
      (dev_base : ℕ) (b : Board)
      → IsMemory
      → (((a4091_validate r dev_base b).1 ≡ pos 0) ↔ IsBoardBase dev_base)
        × (((a4091_validate r dev_base b).1 ≡ pos 0)
            ⊎ ((a4091_validate r dev_base b).1 ≡ Codes.bad_board))
        × (r.scratch (a4091_validate r dev_base b).0 ≡ r.scratch b)
        × (r.temp (a4091_validate r dev_base b).0 ≡ r.temp b)
  unfolding a4091_validate IsMemory
  a4091_validate-restores dev_base b m = elim (Bool-cases (is_bad_base dev_base)) [
    | inl bad ↦ rw bad (
      ((λ e. absurd (codes_differ e)), (λ i. absurd (wrong bad (good_base dev_base i)))),
      inr refl,
      refl,
      refl,
    )
    | inr good ↦
        let (own, other, temp) = m in
        let after = (validate_loop r 32 first_pattern b).0 in
        rw (good, loop_passes m 32 first_pattern b)
          (
            ((λ e. board_base dev_base good), (λ i. refl)),
            inl refl,
            other (r.temp b) (r.set_scratch (r.scratch b) after) ∙ own (r.scratch b) after,
            temp (r.temp b) (r.set_scratch (r.scratch b) after),
          )
  ]
    where
      wrong : is_bad_base dev_base ≡ true → is_bad_base dev_base ≡ false → ⊥
      wrong e f = cc

  -- A register of which a bit never changes shows it in all the rounds, if all are passed.
  stuck-always :
      (reg : Board → ℕ) (reading : ℕ → ℕ) (j v rounds patt : ℕ) (b : Board)
      → ((p : ℕ) (c : Board) → reads_back r p c ≡ true → reg c ≡ reading p)
      → ((c : Board) → reg c / 2 ^ j % 2 ≡ v)
      → (validate_loop r rounds patt b).1 ≡ false
      → always j v reading rounds patt ≡ true
  unfolding validate_loop always
  stuck-always reg reading j v zero patt b reads stuck passed = refl
  stuck-always reg reading j v (suc rounds) patt b reads stuck passed =
      elim (Bool-cases (reads_back r patt (write_both r patt b))) [
        | inl good ↦
            let here : reg (write_both r patt b) ≡ reading patt =
              reads patt (write_both r patt b) good in
            let same : reading patt / 2 ^ j % 2 ≡ v = rw here at (stuck (write_both r patt b)) in
            let rest =
              stuck-always reg reading j v rounds (rotate patt) (write_both r patt b) reads stuck
                (rw good at passed) in
            ground arith
        | inr bad ↦ absurd (failed (rw bad at passed))
      ]
    where
      failed : true ≡ false → ⊥
      failed e = cc e

  scratch_reads : (p : ℕ) (c : Board) → reads_back r p c ≡ true → r.scratch c ≡ p
  unfolding reads_back
  scratch_reads p c h = ground arith

  temp_reads : (p : ℕ) (c : Board) → reads_back r p c ≡ true → r.temp c ≡ rotate p
  unfolding reads_back
  temp_reads p c h = ground arith

  -- A board on which one of the 32 bits of a register always reads the same is refused.
  pub a4091_validate-stuck :
      (dev_base j v : ℕ) (b : Board)
      → j < 32
      → ((c : Board) → r.scratch c / 2 ^ j % 2 ≡ v) ⊎ ((c : Board) → r.temp c / 2 ^ j % 2 ≡ v)
      → (a4091_validate r dev_base b).1 ≡ Codes.bad_board
  unfolding a4091_validate
  a4091_validate-stuck dev_base j v b small stuck = elim (Bool-cases (is_bad_base dev_base)) [
    | inl bad ↦ rw bad refl
    | inr good ↦ elim (Bool-cases (validate_loop r 32 first_pattern b).1) [
      | inl fail ↦ rw (good, fail) refl
      | inr passed ↦ absurd (elim stuck [
        | inl s ↦
            let bit : v < 2 = omega (arith, s b) in
            not_always (λ p. p) j v scratch_changes small bit
              (stuck-always r.scratch (λ p. p) j v 32 first_pattern b scratch_reads s passed)
        | inr t ↦
            let bit : v < 2 = omega (arith, t b) in
            not_always rotate j v temp_changes small bit
              (stuck-always r.temp rotate j v 32 first_pattern b temp_reads t passed)
      ])
    ]
  ]
