-- ===== src/Mounter/Relocate/Load.antt =====
-- The second loop of `fsrelocate`: hunks are loaded and relocated.
use a4091_software.Base.{
  ℕ, zero, suc, ◌+◌, ◌-◌, ◌*◌, ◌%◌, ◌^◌, Bool, ◌||◌, Option, none, some, List, ◌==◌, ltb, leb,
  if◌then◌else◌, length,
}
use a4091_software.Scsi.{lto4b}
use a4091_software.Mounter.Blocks.{done, failed, hung, long_at}
use a4091_software.Mounter.Lseg.{
  Reader, Lseg, Longs, lseg_read_long, lseg_read_longs, lseg_read_word,
}
use a4091_software.Mounter.Relocate.{
  Hunk, Final, refused, loaded, fault, endless, with_value, hunk_at, write_hunk, bytes_of,
}

-- The hunk types of dos/doshunks.h.
abbrev pub hunk_code : ℕ
hunk_code = 0x3e9

abbrev pub hunk_data : ℕ
hunk_data = 0x3ea

abbrev pub hunk_bss : ℕ
hunk_bss = 0x3eb

abbrev pub hunk_reloc32 : ℕ
hunk_reloc32 = 0x3ec

abbrev pub hunk_end : ℕ
hunk_end = 0x3f2

abbrev pub hunk_reloc32short : ℕ
hunk_reloc32short = 0x3fc

-- What follows: the hunks, and the reader's state.
abbrev pub Next : Type 0
Next = List Hunk → Lseg → Final

-- One entry: the address `base` is added to the long at an offset of hunk i.
unfoldable pub relocate : ℕ → (base offset : ℕ) → List Hunk → (List Hunk → Final) → Final
relocate i base offset hunks more = elim (hunk_at hunks i) [
  | none ↦ fault
  | some h ↦
      if ltb ((h.size + 2 ^ 32 - 1) * 4 % 2 ^ 32) offset
      then refused hunks
      else write_hunk i offset (lto4b ((long_at h.bytes offset + base) % 2 ^ 32)) hunks more
]

-- The offsets of one group of a relocation hunk.
unfoldable pub offsets :
    Reader → (count : ℕ) → (short : Bool) → (i base : ℕ) → List Hunk → Lseg → Next → Final
unfolding relocate with_value
offsets read zero short i base hunks s more = more hunks s
offsets read (suc count) short i base hunks s more =
    let rest = offsets read count short i base in
    with_value (if short then lseg_read_word read s else lseg_read_long read s)
      (λ offset t. relocate i base offset hunks (λ hs. rest hs t more)) (refused hunks)

-- The hunk that a group refers to.
unfoldable pub group_base : (first relocated : ℕ) → List Hunk → (ℕ → Final) → Final
group_base first relocated hunks more =
    let target = (relocated + 2 ^ 32 - first) % 2 ^ 32 in
    if leb (length hunks) target
    then refused hunks
    else (elim (hunk_at hunks target) [ none ↦ fault | some h ↦ more h.addr ])

-- The groups of a relocation hunk, up to a count of 0.
unfoldable pub groups :
    Reader → ℕ → (short : Bool) → (first i : ℕ) → List Hunk → Lseg → Next → Final
unfolding offsets group_base
groups read zero short first i hunks s more = endless
groups read (suc fuel) short first i hunks s more =
    let rest = groups read fuel short first i in
    with_value (lseg_read_long read s)
      (λ count t.
        if count == 0
        then more hunks t
        else with_value (lseg_read_long read t)
            (λ relocated u.
              group_base first relocated hunks
                (λ base. offsets read count short i base hunks u (λ hs v. rest hs v more)))
            (refused hunks))
      (refused hunks)

-- The longs of a hunk, read into its memory.
unfoldable pub contents : Option Longs → ℕ → List Hunk → Next → Final
unfolding bytes_of
contents none i hunks more = endless
contents (some (hung, t)) i hunks more = endless
contents (some (failed, t)) i hunks more = refused hunks
contents (some (done xs, t)) i hunks more = write_hunk i 0 (bytes_of xs) hunks (λ hs. more hs t)

-- A code, data or BSS hunk.
unfoldable pub section : Reader → (bss : Bool) → (i : ℕ) → List Hunk → Lseg → Next → Final
unfolding contents
section read bss i hunks s more = elim (hunk_at hunks i) [
  | none ↦ refused hunks
  | some h ↦
      with_value (lseg_read_long read s)
        (λ size t.
          if ltb h.size size
          then refused hunks
          else if bss
          then more hunks t
          else contents (lseg_read_longs read size t) i hunks more)
        (refused hunks)
]

abbrev pub is_section : ℕ → Bool
is_section type = (type == hunk_code || type == hunk_data) || type == hunk_bss

abbrev pub is_reloc : ℕ → Bool
is_reloc type = type == hunk_reloc32 || type == hunk_reloc32short

-- The body of the switch: the state for the next round is the number of hunks begun, and the last of
-- these.
unfoldable pub switch_type :
    Reader
    → ℕ
    → (first type count : ℕ) → Option ℕ
    → List Hunk
    → Lseg
    → (ℕ → Option ℕ → Next)
    → Final
unfolding section groups
switch_type read fuel first type count current hunks s next =
    if is_section type
    then section read (type == hunk_bss) count hunks s (next (count + 1) (some count))
    else if is_reloc type
    then (elim current [
      | none ↦ refused hunks
      | some i ↦ groups read fuel (type == hunk_reloc32short) first i hunks s (next count (some i))
    ])
    else if type == hunk_end
    then (if leb (length hunks) count then loaded hunks else next count current hunks s)
    else refused hunks

-- The loop. The end of the blocks is the end of the file system where all hunks were begun.
unfoldable pub load_loop : Reader → ℕ → (first count : ℕ) → Option ℕ → Next
unfolding switch_type
load_loop read zero first count current hunks s = endless
load_loop read (suc fuel) first count current hunks s =
    let next = load_loop read fuel first in
    with_value (lseg_read_long read s)
      (λ type t. switch_type read fuel first type count current hunks t next)
      (if leb (length hunks) count then loaded hunks else refused hunks)
