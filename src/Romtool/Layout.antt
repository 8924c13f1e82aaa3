-- ===== src/Romtool/Layout.antt =====
-- Where `replace_file` leaves the files: one behind the other, and erased bytes behind them.
use native.Mathlib.Numerals.{unary_clauses}
use a4091_software.Base.{
  ℕ, suc, ◌+◌, ◌-◌, ◌^◌, ◌≤◌, ◌<◌, ◌≡◌, refl, sym, ap, true, false, List, [], ◌∷◌, ◌++◌, arith,
  length, length-append, take, ltb, ◌==◌,
}
use a4091_software.Base.Int.{pos, negsuc}
use a4091_software.Romtool.Bytes.{blank, erase_lem, put_next, length-take, length-slice}
use a4091_software.Romtool.{
  Rom, Slot, device, filesystem1, filesystem2, len, sizeof_inventory, new_space, set_dostype, place,
  lay_out, files_with, replace_file,
}

append_nil : (xs : List ℕ) → xs ++ [] ≡ xs
append_nil [] = refl
append_nil (x ∷ xs) = ap (λ (t : List ℕ). x ∷ t) (append_nil xs)

place_next :
    (off : ℕ) (xs bs : List ℕ) (n : ℕ)
    → off ≡ length xs
    → length bs ≤ n
    → place off bs (xs ++ blank n) ≡ (xs ++ bs) ++ blank (n - length bs)
place_next off xs [] n e h = rw (append_nil xs) (simp unary_clauses refl)
place_next off xs (b ∷ bs) n e h =
    let written : (suc (length bs) == 0) ≡ false = ground arith in
    rw written (put_next off xs (b ∷ bs) n e h)

-- The bytes before the inventory, for a ROM header and three files.
abbrev pub layout : List ℕ → (Slot → List ℕ) → ℕ → List ℕ
layout header files room =
    (((header ++ files device) ++ files filesystem1) ++ files filesystem2)
    ++ blank
        (room - length (files device) - length (files filesystem1) - length (files filesystem2))

pub lay_out-layout :
    (files : Slot → List ℕ) (rom : Rom)
    → rom.inv.device_offset
        + length (files device)
        + length (files filesystem1)
        + length (files filesystem2)
      ≤ length rom.body
    → (lay_out files rom).body
      ≡ layout (take rom.inv.device_offset rom.body) files (length rom.body - rom.inv.device_offset)
unfolding lay_out
lay_out-layout files rom h =
    let d = rom.inv.device_offset in
    let header = take d rom.body in
    let long = length-take d rom.body (omega arith) in
    let first = length-append header (files device) in
    let second = length-append (header ++ files device) (files filesystem1) in
    rw
      (
        erase_lem d rom.body (omega arith),
        put_next d header (files device) (length rom.body - d) (sym long) (omega arith),
        place_next (d + length (files device)) (header ++ files device) (files filesystem1)
            (length rom.body - d - length (files device)) (omega arith) (omega arith),
      )
      (place_next (d + length (files device) + length (files filesystem1))
        ((header ++ files device) ++ files filesystem1) (files filesystem2)
        (length rom.body - d - length (files device) - length (files filesystem1)) (omega arith)
        (omega arith))

-- Every file lies within the image, and so does the ROM header; an image has 64 kB at most.
pub record IsValid (rom : Rom) : Type 0 where
  pub header : rom.inv.device_offset ≤ length rom.body
  pub first : rom.inv.device_offset + rom.inv.device_len ≤ length rom.body
  pub second : rom.inv.filesystem1_offset + rom.inv.filesystem1_len ≤ length rom.body
  pub third : rom.inv.filesystem2_offset + rom.inv.filesystem2_len ≤ length rom.body
  pub size : len rom ≤ 2 ^ 16

-- The bytes that the image has to hold.
abbrev pub needed : (files : Slot → List ℕ) → ℕ → ℕ
needed files d = d + length (files device) + length (files filesystem1) + length (files filesystem2)

needed-new_space :
    (slot : Slot) (file : List ℕ) (rom : Rom)
    → IsValid rom
    → length file < 2 ^ 31
    → new_space slot rom.inv (length file)
      ≡ needed (files_with slot file rom) rom.inv.device_offset + sizeof_inventory
unfolding new_space
needed-new_space slot file rom v h =
    let l1 = length-slice rom.inv.device_offset rom.inv.device_len rom.body v.first in
    let l2 = length-slice rom.inv.filesystem1_offset rom.inv.filesystem1_len rom.body v.second in
    let l3 = length-slice rom.inv.filesystem2_offset rom.inv.filesystem2_len rom.body v.third in
    elim slot
      as (λ k.
        new_space k rom.inv (length file)
        ≡ needed (files_with k file rom) rom.inv.device_offset + sizeof_inventory) [
          | device ↦ omega (arith, v, l1, l2, l3)
          | filesystem1 ↦ omega (arith, v, l1, l2, l3)
          | filesystem2 ↦ omega (arith, v, l1, l2, l3)
        ]

abbrev marked : Slot → ℕ → Rom → Rom
marked slot dostype rom = record rom { inv = set_dostype slot dostype rom.inv }

module _ (slot : Slot) (file : List ℕ) (dostype : ℕ) (rom : Rom) (v : IsValid rom)
    (small : length file < 2 ^ 31) where
  pub replace_file-lay_out :
      needed (files_with slot file rom) rom.inv.device_offset ≤ length rom.body
      → replace_file slot file dostype rom
        ≡ (lay_out (files_with slot file rom) (marked slot dostype rom), pos 0)
  unfolding replace_file
  replace_file-lay_out fits =
      let space = needed-new_space slot file rom v small in
      let enough : ltb (len rom) (new_space slot rom.inv (length file)) ≡ false = ground arith in
      rw enough refl

  -- Where the new file does not fit beside the two others, the result is -1, and nothing of the
  -- image but the DosType of the slot is changed; for a valid image and a file below 2 ^ 31 bytes.
  pub replace_file-too_big :
      length rom.body < needed (files_with slot file rom) rom.inv.device_offset
      → replace_file slot file dostype rom
        ≡ (record rom { inv = set_dostype slot dostype rom.inv }, negsuc 0)
  unfolding replace_file
  replace_file-too_big big =
      let space = needed-new_space slot file rom v small in
      let over : ltb (len rom) (new_space slot rom.inv (length file)) ≡ true = ground arith in
      rw over refl
