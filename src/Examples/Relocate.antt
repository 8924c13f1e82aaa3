-- ===== src/Examples/Relocate.antt =====
-- The relocation of a file system's hunks at a concrete input.
use a4091_software.Base.{ℕ, ◌≡◌, refl, false, none, List, [], ◌∷◌, arith}
use a4091_software.Mounter.Blocks.{failed, long_at}
use a4091_software.Mounter.Lseg.{Reader, Lseg, lseg_read_long, lseg_read_longs}
use a4091_software.Mounter.Relocate.{Hunk, loaded, with_value, hunk_at, write_hunk, bytes_of}
use a4091_software.Mounter.Relocate.Load.{
  hunk_code, hunk_reloc32, hunk_end, load_loop, switch_type, section, contents, groups, group_base,
  offsets, relocate,
}
use a4091_software.Mounter.Relocate.InBounds.{AllSound, Safe, extents}
use a4091_software.Mounter.Relocate.Guarded.{load_loop-Safe}

-- A code hunk of two longs; the second one, 4, is to be relocated by the hunk's address.
abbrev file : List ℕ
file = bytes_of (hunk_code ∷ 2 ∷ 0x4e754e75 ∷ 4 ∷ hunk_reloc32 ∷ 1 ∷ 0 ∷ 4 ∷ 0 ∷ hunk_end ∷ [])

abbrev stream : Lseg
stream = record {
  block = 0xffffffff;
  longs = 10;
  offset = 0;
  buf = 0 ∷ 0 ∷ 0 ∷ 0 ∷ 0 ∷ 0 ∷ 0 ∷ 0 ∷ 0 ∷ 0 ∷ 0 ∷ 0 ∷ 0 ∷ 0 ∷ 0 ∷ 0 ∷ 0 ∷ 0 ∷ 0 ∷ 0 ∷ file;
  wordbuf = 0;
  hasword = false;
}

abbrev no_blocks : Reader
no_blocks block = failed

abbrev table : List Hunk
table = record { size = 2; addr = 0x10000; bytes = 0 ∷ 0 ∷ 0 ∷ 0 ∷ 0 ∷ 0 ∷ 0 ∷ 0 ∷ [] } ∷ []

relocated :
    load_loop no_blocks 4 0 0 none table stream
    ≡ loaded (
        record { size = 2; addr = 0x10000; bytes = 0x4e ∷ 0x75 ∷ 0x4e ∷ 0x75 ∷ 0 ∷ 1 ∷ 0 ∷ 4 ∷ [] }
        ∷ [])
unfolding load_loop switch_type section contents groups group_base offsets relocate with_value
    lseg_read_long lseg_read_longs long_at hunk_at write_hunk
relocated = refl

load_loop-Safe_example : Safe (extents table) (load_loop no_blocks 4 0 0 none table stream)
load_loop-Safe_example =
    load_loop-Safe no_blocks 4 0 table stream
      (unfold AllSound in ((omega arith, omega arith, refl), tt))
