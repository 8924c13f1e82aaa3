-- ===== src/Mounter/Relocate.antt =====
-- `fsrelocate` of mounter.c: the hunks of a file system are read from its LSEG blocks into memory, and
-- their addresses added to the longs that the relocation hunks name.
pub mod Load
pub mod Header
pub mod InBounds
pub mod Guarded
use a4091_software.Base.{
  ℕ, zero, suc, ◌+◌, ◌-◌, ◌*◌, ◌/◌, ◌%◌, ◌^◌, Bool, true, false, ◌||◌, ◌&&◌, not, Option, none,
  some, List, [], ◌∷◌, ◌++◌, ◌==◌, ltb, leb, if◌then◌else◌, length,
}
use a4091_software.Scsi.{lto4b}
use a4091_software.Mounter.Blocks.{Outcome, done, failed, hung, long_at}
use a4091_software.Mounter.Lseg.{Reader, Lseg, lseg_read_long, lseg_read_longs, lseg_read_word}

-- `struct RelocHunk`: hunkSize, the address hunkData, and the memory from there on.
pub record Hunk : Type 0 where
  pub size : ℕ
  pub addr : ℕ
  pub bytes : List ℕ

-- NULL with the hunks freed, the hunks, an access outside of what was allocated, or no return.
pub data Final : Type 0 where
  refused loaded : List Hunk → Final
  fault endless : Final

-- What follows a long, and what follows a failure.
unfoldable pub with_value : Option (Outcome ℕ × Lseg) → (ℕ → Lseg → Final) → Final → Final
with_value none ok fail = endless
with_value (some (hung, t)) ok fail = endless
with_value (some (failed, t)) ok fail = fail
with_value (some (done v, t)) ok fail = ok v t

-- Bytes written over a list from an index on.
unfoldable pub store : ℕ → List ℕ → List ℕ → List ℕ
store i xs [] = []
store (suc i) xs (y ∷ ys) = y ∷ store i xs ys
store zero [] (y ∷ ys) = y ∷ ys
store zero (x ∷ xs) (y ∷ ys) = x ∷ store zero xs ys

unfoldable pub hunk_at : List Hunk → ℕ → Option Hunk
hunk_at [] i = none
hunk_at (h ∷ hs) zero = some h
hunk_at (h ∷ hs) (suc i) = hunk_at hs i

unfoldable pub put_hunk : ℕ → Hunk → List Hunk → List Hunk
put_hunk i h [] = []
put_hunk zero h (k ∷ ks) = h ∷ ks
put_hunk (suc i) h (k ∷ ks) = k ∷ put_hunk i h ks

-- A write into the memory of hunk i, then the rest.
unfoldable pub write_hunk : ℕ → ℕ → List ℕ → List Hunk → (List Hunk → Final) → Final
unfolding store hunk_at put_hunk
write_hunk i offset xs hunks more = elim (hunk_at hunks i) [
  | none ↦ fault
  | some h ↦
      if ltb (length h.bytes) (offset + length xs)
      then fault
      else more (put_hunk i (record h { bytes = store offset xs h.bytes }) hunks)
]

-- The bytes of longs.
unfoldable pub bytes_of : List ℕ → List ℕ
bytes_of [] = []
bytes_of (x ∷ xs) = lto4b x ++ bytes_of xs
