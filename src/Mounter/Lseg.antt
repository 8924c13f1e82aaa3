-- ===== src/Mounter/Lseg.antt =====
-- The readers of mounter.c for a file system's LSEG blocks: `lseg_read_longs`, `lseg_read_long` and
-- `lseg_read_word`. The blocks are a chain; each holds 123 longs behind a header of 20 bytes.
pub mod Stream
pub mod Take
pub mod Count
use a4091_software.Base.{
  ℕ, zero, suc, ◌+◌, ◌-◌, ◌*◌, ◌/◌, ◌%◌, ◌^◌, Bool, true, false, Option, none, some, List, [], ◌∷◌,
  ◌==◌, ltb, if◌then◌else◌, get_or,
}
use a4091_software.Mounter.Blocks.{Drive, Outcome, done, failed, hung, long_at, readblock}

-- Reading a block of the chain.
abbrev pub Reader : Type 0
Reader = ℕ → Outcome (List ℕ)

-- IDNAME_LOADSEG of devices/hardblocks.h, "LSEG".
abbrev pub reader : Drive → (slow_spinup : Bool) → (blocksize : ℕ) → Reader
reader drive slow_spinup blocksize block = readblock drive slow_spinup blocksize block 0x4c534547

-- The fields of `struct MountData` for the chain: the next block, the longs left in the buffer, the
-- index of the first of these, the buffer, and half a long that `lseg_read_word` kept.
pub record Lseg : Type 0 where
  pub block : ℕ
  pub longs : ℕ
  pub offset : ℕ
  pub buf : List ℕ
  pub wordbuf : ℕ
  pub hasword : Bool

abbrev pub lseg_datasize : ℕ
lseg_datasize = 123

-- lsb_LoadData[offset], and the step behind it.
abbrev pub load_data : Lseg → ℕ
load_data s = long_at s.buf (20 + 4 * s.offset)

abbrev pub advance : Lseg → Lseg
advance s = record s { offset = s.offset + 1; longs = s.longs - 1 }

abbrev pub with_block : List ℕ → Lseg → Lseg
with_block buf s = record s { buf = buf; longs = lseg_datasize; offset = 0; block = long_at buf 16 }

-- TRUE with the longs, FALSE, or no return; and the state.
abbrev pub Longs : Type 0
Longs = Outcome (List ℕ) × Lseg

abbrev pub prepend : ℕ → Option Longs → Option Longs
prepend x (some (done xs, s)) = some (done (x ∷ xs), s)
prepend x o = o

-- The next block of the chain, then the rest of the loop.
unfoldable pub load_next : Reader → (Lseg → Option Longs) → Lseg → Option Longs
load_next read more s = if s.block == 0xffffffff then some (failed, s) else (elim (read s.block) [
  | failed ↦ some (failed, s)
  | hung ↦ some (hung, s)
  | done buf ↦ more (with_block buf s)
])

-- The loop; `left` are the longs still wanted. `none` where the fuel runs out.
unfoldable pub read_loop : Reader → ℕ → ℕ → Lseg → Option Longs
unfolding load_next
read_loop read zero left s = none
read_loop read (suc fuel) left s =
    let again = read_loop read fuel (left - 1) in
    let same = read_loop read fuel left in
    if left == 0
    then some (done [], s)
    else if ltb 0 s.longs
    then (if left == 1
        then some (done (load_data s ∷ []), advance s)
        else if s.longs == 1
        then prepend (load_data s) (load_next read again (advance s))
        else prepend (load_data s) (again (advance s)))
    else load_next read same s

-- Two rounds for each long are enough, and one.
unfoldable pub lseg_read_longs : Reader → ℕ → Lseg → Option Longs
unfolding read_loop
lseg_read_longs read longs s = read_loop read (2 * longs + 2) longs (record s { hasword = false })

first_of : Option Longs → Option (Outcome ℕ × Lseg)
first_of none = none
first_of (some (done xs, s)) = some (done (get_or xs 0 0), s)
first_of (some (failed, s)) = some (failed, s)
first_of (some (hung, s)) = some (hung, s)

-- Half of the long was read as a word before: what follows is shifted by a word. After a failure the
-- word kept is undefined, here what it was.
shifted : ℕ → Option (Outcome ℕ × Lseg) → Option (Outcome ℕ × Lseg)
shifted wordbuf (some (failed, s)) = some (failed, record s { hasword = true })
shifted wordbuf (some (done temp, s)) =
    some (
      done (wordbuf * 2 ^ 16 + temp / 2 ^ 16),
      record s { wordbuf = temp % 2 ^ 16; hasword = true },
    )
shifted wordbuf o = o

unfoldable pub lseg_read_long : Reader → Lseg → Option (Outcome ℕ × Lseg)
unfolding first_of shifted lseg_read_longs
lseg_read_long read s =
    if s.hasword
    then shifted s.wordbuf (first_of (lseg_read_longs read 1 s))
    else first_of (lseg_read_longs read 1 s)

halved : Option (Outcome ℕ × Lseg) → Option (Outcome ℕ × Lseg)
halved (some (done temp, s)) =
    some (done (temp / 2 ^ 16), record s { wordbuf = temp % 2 ^ 16; hasword = true })
halved o = o

unfoldable pub lseg_read_word : Reader → Lseg → Option (Outcome ℕ × Lseg)
unfolding first_of halved lseg_read_longs
lseg_read_word read s =
    if s.hasword
    then some (done s.wordbuf, record s { hasword = false })
    else halved (first_of (lseg_read_longs read 1 s))
