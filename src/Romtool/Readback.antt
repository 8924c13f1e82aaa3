-- ===== src/Romtool/Readback.antt =====
-- What the inventory finds in an image after `replace_file`.
use native.Mathlib.Nat.{mod-eq_of_lt}
use a4091_software.Base.{
  ℕ, suc, ◌+◌, ◌-◌, ◌%◌, ◌^◌, ◌≤◌, ◌<◌, ◌≡◌, refl, sym, ap, ◌∙◌, false, List, [], ◌∷◌, ◌++◌, arith,
  length, length-append, take, ◌==◌, if◌then◌else◌,
}
use a4091_software.Base.Int.{ℤ, pos}
use a4091_software.Romtool.Bytes.{
  slice, blank, length-blank, append_assoc, slice-append, length-take,
}
use a4091_software.Romtool.{
  Inventory, Rom, Slot, device, filesystem1, filesystem2, len, same_slot, file_of, set_dostype,
  offset_of, lay_out, files_with, replace_file,
}
use a4091_software.Romtool.Layout.{IsValid, needed, lay_out-layout, replace_file-lay_out}

read_plain :
    (off : ℕ) (xs bs ys : List ℕ)
    → off ≡ length xs
    → length bs < 2 ^ 32
    → slice off (length bs % 2 ^ 32) ((xs ++ bs) ++ ys) ≡ bs
read_plain off xs bs ys e h = rw (mod-eq_of_lt h) (slice-append off xs bs ys e)

-- A file of no bytes has the offset 0, and is found all the same.
read_next :
    (off : ℕ) (xs bs ys : List ℕ)
    → off ≡ length xs
    → off < 2 ^ 32
    → length bs < 2 ^ 32
    → slice (offset_of off bs) (length bs % 2 ^ 32) ((xs ++ bs) ++ ys) ≡ bs
read_next off xs [] ys e o h = refl
read_next off xs (b ∷ bs) ys e o h =
    let written : (suc (length bs) == 0) ≡ false = ground arith in
    rw (written, mod-eq_of_lt o) (read_plain off xs (b ∷ bs) ys e h)

module _ (files : Slot → List ℕ) (rom : Rom)
    (fits : needed files rom.inv.device_offset ≤ length rom.body) (size : len rom ≤ 2 ^ 16) where
  abbrev header : List ℕ
  header = take rom.inv.device_offset rom.body

  abbrev erased : List ℕ
  erased = blank (
      length rom.body
      - rom.inv.device_offset
      - length (files device)
      - length (files filesystem1)
      - length (files filesystem2))

  long : length header ≡ rom.inv.device_offset
  long = length-take rom.inv.device_offset rom.body (omega arith)

  two : length (header ++ files device) ≡ rom.inv.device_offset + length (files device)
  two = omega (arith, length-append header (files device), long)

  three :
      length ((header ++ files device) ++ files filesystem1)
      ≡ rom.inv.device_offset + length (files device) + length (files filesystem1)
  three = omega (arith, length-append (header ++ files device) (files filesystem1), two)

  read_device : file_of device (lay_out files rom) ≡ files device
  unfolding lay_out
  read_device =
      ap (λ (t : List ℕ). slice rom.inv.device_offset (length (files device) % 2 ^ 32) t)
        (lay_out-layout files rom fits
          ∙ append_assoc ((header ++ files device) ++ files filesystem1) (files filesystem2) erased
          ∙ append_assoc (header ++ files device) (files filesystem1) (files filesystem2 ++ erased))
      ∙ read_plain _ header (files device) (files filesystem1 ++ (files filesystem2 ++ erased))
          (sym long) (omega arith)

  read_filesystem1 : file_of filesystem1 (lay_out files rom) ≡ files filesystem1
  unfolding lay_out
  read_filesystem1 =
      ap
        (λ (t : List ℕ).
          slice (offset_of (rom.inv.device_offset + length (files device)) (files filesystem1))
            (length (files filesystem1) % 2 ^ 32) t)
        (lay_out-layout files rom fits
          ∙ append_assoc ((header ++ files device) ++ files filesystem1) (files filesystem2) erased)
      ∙ read_next _ (header ++ files device) (files filesystem1) (files filesystem2 ++ erased)
          (sym two) (omega arith) (omega arith)

  read_filesystem2 : file_of filesystem2 (lay_out files rom) ≡ files filesystem2
  unfolding lay_out
  read_filesystem2 =
      ap
        (λ (t : List ℕ).
          slice
            (offset_of (rom.inv.device_offset + length (files device) + length (files filesystem1))
              (files filesystem2))
            (length (files filesystem2) % 2 ^ 32) t)
        (lay_out-layout files rom fits)
      ∙ read_next _ ((header ++ files device) ++ files filesystem1) (files filesystem2) erased
          (sym three) (omega arith) (omega arith)

  pub lay_out-file_of : (s : Slot) → file_of s (lay_out files rom) ≡ files s
  lay_out-file_of device = read_device
  lay_out-file_of filesystem1 = read_filesystem1
  lay_out-file_of filesystem2 = read_filesystem2

  pub lay_out-length : length (lay_out files rom).body ≡ length rom.body
  lay_out-length =
      let laid = ap (λ (t : List ℕ). length t) (lay_out-layout files rom fits) in
      let written = ((header ++ files device) ++ files filesystem1) ++ files filesystem2 in
      let four =
        length-append ((header ++ files device) ++ files filesystem1) (files filesystem2) in
      let all = length-append written erased in
      laid
      ∙ omega (
        arith,
        four,
        all,
        three,
        length-blank (
            length rom.body
            - rom.inv.device_offset
            - length (files device)
            - length (files filesystem1)
            - length (files filesystem2)),
      )

set_dostype-offset :
    (slot : Slot) (dostype : ℕ) (inv : Inventory)
    → (set_dostype slot dostype inv).device_offset ≡ inv.device_offset
set_dostype-offset device dostype inv = refl
set_dostype-offset filesystem1 dostype inv = refl
set_dostype-offset filesystem2 dostype inv = refl

-- Where the new file fits beside the two others, `replace_file` succeeds, the inventory of the new
-- image finds the new file in its slot and in each other slot the bytes that were there before, and
-- the image keeps its length; for a valid image and a file below 2 ^ 31 bytes.
pub replace_file-file_of :
    (slot : Slot) (file : List ℕ) (dostype : ℕ) (rom : Rom)
    → IsValid rom
    → length file < 2 ^ 31
    → needed (files_with slot file rom) rom.inv.device_offset ≤ length rom.body
    → let r = replace_file slot file dostype rom in
      (r.1 ≡ pos 0)
      × ((s : Slot) → file_of s r.0 ≡ (if same_slot slot s then file else file_of s rom))
      × (length r.0.body ≡ length rom.body)
replace_file-file_of slot file dostype rom v small fits =
    let files = files_with slot file rom in
    let m : Rom = record rom { inv = set_dostype slot dostype rom.inv } in
    let same = set_dostype-offset slot dostype rom.inv in
    let fits_marked : needed files m.inv.device_offset ≤ length m.body = omega (arith, same) in
    let done = replace_file-lay_out slot file dostype rom v small fits in
    (
      ap (λ (r : Rom × ℤ). r.1) done,
      λ s. ap (λ (r : Rom × ℤ). file_of s r.0) done ∙ lay_out-file_of files m fits_marked v.size s,
      ap (λ (r : Rom × ℤ). length r.0.body) done ∙ lay_out-length files m fits_marked v.size,
    )
