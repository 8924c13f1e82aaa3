-- ===== src/Romtool/Resize/Files.antt =====
-- The files of an image after `resize`.
use a4091_software.Base.{
  ℕ, ◌+◌, ◌*◌, ◌≤◌, ◌≡◌, Bool-cases, inl, inr, refl, ap, ◌∙◌, true, false, List, ◌++◌, arith,
  length, length-append, take, ltb, ◌==◌,
}
use a4091_software.Base.Int.{ℤ, pos, negsuc}
use a4091_software.Romtool.Bytes.{slice, blank, length-blank, length-take, slice_within, slice-take}
use a4091_software.Romtool.{
  Inventory, Rom, Slot, device, filesystem1, filesystem2, sizeof_inventory, len, file_of,
}
use a4091_software.Romtool.Resize.{inventory_bytes, used, resized, resize, IsPacked, IsSize}

length-inventory : (i : Inventory) → length (inventory_bytes i) ≡ 40
unfolding inventory_bytes
length-inventory i = refl

-- A file in the part that is copied.
module _ (rom : Rom) (off n : ℕ) (within : off + n ≤ used rom.inv) where
  abbrev pub bytes : List ℕ
  bytes = rom.body ++ inventory_bytes rom.inv

  pub length-bytes : length bytes ≡ len rom
  length-bytes =
      omega (arith, length-append rom.body (inventory_bytes rom.inv), length-inventory rom.inv)

  first_slice :
      32768 ≤ len rom
      → used rom.inv ≤ length rom.body
      → used rom.inv ≤ 32768
      → slice off n (take 32768 bytes) ≡ slice off n rom.body
  first_slice size room half =
      slice-take off n 32768 bytes (omega arith) (omega (arith, length-bytes))
      ∙ slice_within off n rom.body (inventory_bytes rom.inv) (omega arith)

  pub length-first : 32768 ≤ len rom → length (take 32768 bytes) ≡ 32768
  length-first size = length-take 32768 bytes (omega (arith, length-bytes))

  shrunk_slice :
      len rom ≡ 65536
      → used rom.inv + sizeof_inventory + 32768 ≤ len rom
      → slice off n (resized rom 32).body ≡ slice off n rom.body
  unfolding resized
  shrunk_slice size room =
      slice-take off n 32728 (take 32768 bytes) (omega arith)
        (omega (arith, length-first (omega arith)))
      ∙ first_slice (omega arith) (omega arith) (omega arith)

  grown_slice :
      len rom ≡ 32768
      → used rom.inv ≤ length rom.body
      → slice off n (resized rom 64).body ≡ slice off n rom.body
  unfolding resized
  grown_slice size room =
      let whole = length-append (take 32768 bytes) (blank 32768) in
      let first = length-first (omega arith) in
      slice-take off n 65496 (take 32768 bytes ++ blank 32768) (omega arith)
        (omega (arith, whole, first, length-blank 32768))
      ∙ slice_within off n (take 32768 bytes) (blank 32768) (omega (arith, first))
      ∙ first_slice (omega arith) room (omega arith)

module _ (rom : Rom) where
  pub resize_same : (newsize : ℕ) → newsize * 1024 ≡ len rom → resize rom newsize ≡ (rom, pos 0)
  unfolding resize
  resize_same newsize e =
      let test : (newsize * 1024 == len rom) ≡ true = ground arith in rw test refl

  pub resize_grow : len rom ≡ 32768 → resize rom 64 ≡ (resized rom 64, pos 0)
  unfolding resize
  resize_grow size = let test : (65536 == len rom) ≡ false = ground arith in rw test refl

  pub resize_shrink :
      len rom ≡ 65536
      → (resize rom 32).1 ≡ pos 0
      → (used rom.inv + sizeof_inventory + 32768 ≤ len rom)
        × (resize rom 32 ≡ (resized rom 32, pos 0))
  unfolding resize
  resize_shrink size ok =
      let test : (32768 == len rom) ≡ false = ground arith in
      elim (Bool-cases (ltb (len rom) (used rom.inv + sizeof_inventory + 32768))) [
        | inl full ↦ absurd (failed (rw (test, full) at ok))
        | inr fits ↦ (ground arith, rw (test, fits) refl)
      ]
    where
      failed : negsuc 0 ≡ pos 0 → ⊥
      failed e = cc

  file_slice :
      IsPacked rom
      → (other : Rom) → other.inv ≡ rom.inv
      → ((off n : ℕ) → off + n ≤ used rom.inv → slice off n other.body ≡ slice off n rom.body)
      → (s : Slot) → file_of s other ≡ file_of s rom
  file_slice p other same h device = rw same (h _ _ (omega arith))
  file_slice p other same h filesystem1 = rw same (h _ _ p.second)
  file_slice p other same h filesystem2 = rw same (h _ _ p.third)

-- A resize to 32 or 64 kB that succeeds keeps every file of the image, whether it grows, shrinks or
-- stays; for an image of one of these sizes whose files lie within the part that their lengths add
-- up to.
pub resize-file_of :
    (rom : Rom) (newsize : ℕ)
    → IsSize newsize
    → IsPacked rom
    → (resize rom newsize).1 ≡ pos 0
    → (s : Slot) → file_of s (resize rom newsize).0 ≡ file_of s rom
unfolding resized
resize-file_of rom newsize (inl e) p ok s = elim p.size [
  | inl size ↦ ap (λ (r : Rom × ℤ). file_of s r.0) (resize_same rom newsize (omega arith))
  | inr size ↦
      let (room, done) = resize_shrink rom size (rw e at ok) in
      rw e (
        ap (λ (r : Rom × ℤ). file_of s r.0) done
        ∙ file_slice rom p (resized rom 32) refl (λ off n h. shrunk_slice rom off n h size room) s)
]
resize-file_of rom newsize (inr e) p ok s = elim p.size [
  | inl size ↦ rw e (
      ap (λ (r : Rom × ℤ). file_of s r.0) (resize_grow rom size)
      ∙ file_slice rom p (resized rom 64) refl (λ off n h. grown_slice rom off n h size p.room) s)
  | inr size ↦ ap (λ (r : Rom × ℤ). file_of s r.0) (resize_same rom newsize (omega arith))
]
