-- ===== src/Examples/FileSystems.antt =====
-- The theorems on the file systems of mounter.c at a concrete header.
use a4091_software.Base.{
  ℕ, zero, suc, ◌+◌, ◌*◌, ◌≡◌, refl, true, none, some, List, [], ◌∷◌, ◌==◌, if◌then◌else◌, arith,
  get_or,
}
use a4091_software.Mounter.Blocks.{Outcome, done, failed, hung, long_at}
use a4091_software.Mounter.FileSystems.{
  FileSysEntry, Memory, tail, freed, first_entry, new_entry, entry_long, process_patch_flags,
  fhb_dos_type, fhb_version, fhb_patch_flags, fhb_seg_list_blocks, parse_fshd, with_resource,
  scan_entries, fshd_process, fshd_add, process_header, or_listed, fshd_loop, then_listed,
}
use a4091_software.Mounter.FileSystems.Sorted.{AllBelow, IsNewestFirst}
use a4091_software.Mounter.FileSystems.Newest.{
  IsGood, Ended, promised, HeaderChain, parse_fshd-IsGood,
}
use a4091_software.Mounter.FileSystems.Patches.{is_set, process_patch_flags-new_entry}

abbrev zeros : ℕ → List ℕ → List ℕ
zeros zero rest = rest
zeros (suc n) rest = 0 ∷ zeros n rest

-- The type DOS\3.
abbrev dos_3 : ℕ
dos_3 = 0x444f5303

-- A header for it: version 45.1, patch flags 0x180, the list of segments from block 9 on, and a global
-- vector of -1.
abbrev header : List ℕ
header = zeros 32 (
    0x44
    ∷ 0x4f
    ∷ 0x53
    ∷ 3
    ∷ 0
    ∷ 45
    ∷ 0
    ∷ 1
    ∷ 0
    ∷ 0
    ∷ 1
    ∷ 0x80
    ∷ zeros 28 (0 ∷ 0 ∷ 0 ∷ 9 ∷ 0xff ∷ 0xff ∷ 0xff ∷ 0xff ∷ []))

abbrev disk : (block id : ℕ) → Outcome (List ℕ)
disk block id = if block == 5 then done header else failed

abbrev enough : Memory
enough = record { resource = true; entry = true }

abbrev old_entry : FileSysEntry
old_entry = record {
  dos_type = dos_3;
  version = 0x280001;
  patch_flags = 0;
  patches = [];
  seg_list = 100;
}

is_dos_3 : fhb_dos_type header ≡ dos_3
unfolding long_at
is_dos_3 = refl

sorted : IsNewestFirst (old_entry ∷ [])
unfolding IsNewestFirst AllBelow
sorted = (tt, tt)

parse_fshd-IsGood_example :
    Ended dos_3
      (promised enough (fhb_version header))
      (parse_fshd 1 disk enough (λ blocks. some (blocks + 100)) 5 dos_3 (some (old_entry ∷ [])))
      IsGood
parse_fshd-IsGood_example =
    parse_fshd-IsGood disk enough (λ blocks. some (blocks + 100)) dos_3 (fhb_version header) 0 5
      (old_entry ∷ []) (λ b buf e same. (fhb_seg_list_blocks buf + 100, refl))
      (HeaderChain.reached 0 5 header refl refl is_dos_3) sorted

-- Without a header and without an entry of the type the answer is the end of the list.
no_file_system :
    parse_fshd 1 disk enough (λ blocks. some 0) 0xffffffff dos_3 (some [])
    ≡ some (done (tail, some []))
unfolding parse_fshd then_listed or_listed fshd_loop fshd_process scan_entries first_entry
    with_resource
no_file_system = refl

-- Where the hunks cannot be loaded, the answer is the entry that was freed.
not_loaded :
    parse_fshd 1 disk enough (λ blocks. some 0) 5 dos_3 (some [])
    ≡ some (done (freed (new_entry header), some []))
unfolding parse_fshd then_listed or_listed fshd_loop fshd_process scan_entries first_entry
    with_resource process_header fshd_add new_entry long_at
not_loaded = refl

flags_of : fhb_patch_flags header ≡ 0x180
unfolding long_at
flags_of = refl

process_patch_flags-new_entry_example :
    get_or
      (process_patch_flags 33
        (fhb_patch_flags header)
        0
        (entry_long record (new_entry header) { seg_list = 109 })
        (zeros 9 []))
      8
      0
    ≡ (if is_set 8 (fhb_patch_flags header)
        then (if 8 == 7 then 109 else long_at header (44 + 4 * 8))
        else get_or (zeros 9 []) 8 0)
process_patch_flags-new_entry_example =
    process_patch_flags-new_entry header (zeros 9 []) 109 8 (omega (arith, flags_of)) (omega arith)

-- Where fsrelocate never returns, neither does ParseFSHD.
never_loaded : parse_fshd 1 disk enough (λ blocks. none) 5 dos_3 (some []) ≡ some hung
unfolding parse_fshd then_listed fshd_loop fshd_process scan_entries first_entry with_resource
    process_header new_entry long_at
never_loaded = refl
