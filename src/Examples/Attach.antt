-- ===== src/Examples/Attach.antt =====
-- The theorems on attach.c at concrete boards.
use a4091_software.Base.{ℕ, ◌+◌, ◌*◌, ◌/◌, ◌≡◌, ◌↔◌, ◌⊎◌, refl, inl, arith}
use a4091_software.Base.Int.{pos}
use a4091_software.Codes
use a4091_software.Attach.{Registers, a4091_validate}
use a4091_software.Attach.Validate.{
  IsMemory, IsBoardBase, a4091_validate-restores, a4091_validate-stuck,
}

-- The two registers, which keep what is written.
abbrev good_board : Registers (ℕ × ℕ)
good_board = record {
  scratch = λ b. b.0;
  temp = λ b. b.1;
  set_scratch = λ v b. (v, b.1);
  set_temp = λ v b. (b.0, v);
}

good-IsMemory : IsMemory good_board
unfolding IsMemory
good-IsMemory = (λ v b. refl, λ v b. refl, λ v b. refl)

a4091_validate-restores_example :
    (((a4091_validate good_board 0x40000000 (7, 8)).1 ≡ pos 0) ↔ IsBoardBase 0x40000000)
    × (((a4091_validate good_board 0x40000000 (7, 8)).1 ≡ pos 0)
        ⊎ ((a4091_validate good_board 0x40000000 (7, 8)).1 ≡ Codes.bad_board))
    × ((a4091_validate good_board 0x40000000 (7, 8)).0.0 ≡ 7)
    × ((a4091_validate good_board 0x40000000 (7, 8)).0.1 ≡ 8)
a4091_validate-restores_example = a4091_validate-restores good_board 0x40000000 (7, 8) good-IsMemory

-- The lowest bit of scratch always reads 1.
abbrev stuck_board : Registers (ℕ × ℕ)
stuck_board = record good_board { scratch = λ b. b.0 / 2 * 2 + 1 }

a4091_validate-stuck_example : (a4091_validate stuck_board 0x40000000 (7, 8)).1 ≡ Codes.bad_board
a4091_validate-stuck_example =
    a4091_validate-stuck stuck_board 0x40000000 0 1 (7, 8) (omega arith) (inl (λ c. omega arith))
