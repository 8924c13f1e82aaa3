-- ===== src/Mounter/Relocate/Header.antt =====
-- The header of a file system's hunks, their memory, and `fsrelocate` as a whole.
use a4091_software.Base.{
  ℕ, zero, suc, ◌+◌, ◌-◌, ◌*◌, ◌/◌, ◌%◌, ◌^◌, Bool, not, ◌||◌, Option, none, some, List, [], ◌∷◌,
  ◌++◌, ◌==◌, ltb, leb, if◌then◌else◌,
}
use a4091_software.Mounter.Blocks.{done, failed, hung}
use a4091_software.Mounter.Lseg.{Reader, Lseg, lseg_read_long}
use a4091_software.Mounter.Relocate.{Hunk, Final, refused, fault, endless, with_value}
use a4091_software.Mounter.Relocate.Load.{load_loop}

-- AllocMem of a number of bytes with flags, after the hunks so far: an address, or `none` for NULL.
abbrev pub Alloc : Type 0
Alloc = List Hunk → (bytes flags : ℕ) → Option ℕ

-- HUNK_HEADER, the flags HUNKF_CHIP and HUNKF_FAST of a size (bits 30 and 31), MEMF_PUBLIC,
-- MEMF_CHIP and MEMF_CLEAR.
abbrev pub hunk_header : ℕ
hunk_header = 0x3f3

abbrev memf_public : ℕ
memf_public = 1

abbrev memf_chip : ℕ
memf_chip = 2

abbrev memf_clear : ℕ
memf_clear = 0x10000

abbrev zeros : ℕ → List ℕ
zeros zero = []
zeros (suc n) = 0 ∷ zeros n

-- One hunk: its size and link take 8 bytes, which a smaller piece of memory does not have.
unfoldable pub alloc_hunk : Alloc → (size flags : ℕ) → List Hunk → (List Hunk → Final) → Final
alloc_hunk alloc size flags hunks more =
    let bytes = (size + 2) * 4 % 2 ^ 32 in
    elim (alloc hunks bytes (flags + memf_clear)) [
      | none ↦ refused hunks
      | some p ↦
          if ltb bytes 8
          then fault
          else more (hunks ++ record { size = size; addr = p + 8; bytes = zeros (bytes - 8) } ∷ [])
    ]

-- The memory for a hunk, by its size and the two flags in it. Both flags: another long has the
-- memory's flags, of which the bit of MEMF_CLEAR is set.
unfoldable pub hunk_memory :
    Reader → Alloc → (head : ℕ) → List Hunk → Lseg → (List Hunk → Lseg → Final) → Final
unfolding alloc_hunk
hunk_memory read alloc head hunks s more =
    let size = head % 2 ^ 30 in
    let flags = head / 2 ^ 30 in
    if flags == 3
    then with_value (lseg_read_long read s)
        (λ memory t.
          alloc_hunk alloc size
            (if memory / memf_clear % 2 == 0 then memory else memory - memf_clear) hunks
            (λ hs. more hs t))
        (refused hunks)
    else if flags == 1
    then alloc_hunk alloc size (memf_public + memf_chip) hunks (λ hs. more hs s)
    else alloc_hunk alloc size memf_public hunks (λ hs. more hs s)

-- The first loop. `left` hunks are to be allocated.
unfoldable pub alloc_loop :
    Reader → Alloc → (left : ℕ) → List Hunk → Lseg → (List Hunk → Lseg → Final) → Final
unfolding hunk_memory
alloc_loop read alloc zero hunks s more = more hunks s
alloc_loop read alloc (suc left) hunks s more =
    let rest = alloc_loop read alloc left in
    with_value (lseg_read_long read s)
      (λ head t. hunk_memory read alloc head hunks t (λ hs u. rest hs u more)) (refused hunks)

-- A long whose reading may fail: the variable keeps 0xffffffff then. No half long is left over.
unfoldable pub read_anyway : Reader → Lseg → (ℕ → Lseg → Final) → Final
read_anyway read s more = elim (lseg_read_long read s) [
  | none ↦ endless
  | some (o, t) ↦ elim o [ done v ↦ more v t | failed ↦ more 0xffffffff t | hung ↦ endless ]
]

-- `memory` says whether there is memory for the table of the hunks, which has 8 bytes for each. The
-- counter of the hunks is 16 bits wide with a sign: with more than 32767 hunks either of the loops over
-- all of them, this one or the one that frees them, leaves the table; the model says so at once.
unfoldable pub fsrelocate : ℕ → Reader → (memory : ℕ → Bool) → Alloc → Lseg → Final
unfolding alloc_loop read_anyway with_value
fsrelocate fuel read memory alloc s =
    with_value (lseg_read_long read s)
      (λ magic t.
        if not (magic == hunk_header)
        then refused []
        else read_anyway read t (λ _ t1. read_anyway read t1 (λ _ t2.
          read_anyway read t2 (λ first t3. read_anyway read t3 (λ last t4.
            if (leb (2 ^ 31) first || leb (2 ^ 31) last) || ltb last first
            then refused []
            else if not (memory ((last + 1 - first) * 8 % 2 ^ 32))
            then refused []
            else if ltb 32767 (last + 1 - first)
            then fault
            else alloc_loop read alloc (last + 1 - first) [] t4
                (λ hunks u. load_loop read fuel first 0 none hunks u))))))
      (refused [])
