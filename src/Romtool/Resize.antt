-- ===== src/Romtool/Resize.antt =====
-- `resize` of romtool.c, and how `main` uses it. A size is in kB, 32 or 64: `main` accepts no other.
pub mod Files
pub mod Changed
use a4091_software.Base.{
  ℕ, zero, suc, ◌+◌, ◌-◌, ◌*◌, ◌≤◌, ◌<◌, ◌≡◌, ◌⊎◌, Bool-cases, inl, inr, refl, sym, ap, ◌∙◌, Bool,
  true, false, not, ◌&&◌, Option, none, some, List, [], ◌∷◌, ◌++◌, arith, length, length-append,
  take, ltb, ◌==◌, if◌then◌else◌,
}
use a4091_software.Base.Int.{ℤ, pos, negsuc, is_zero}
use a4091_software.Scsi.{lto4b}
use a4091_software.Romtool.Bytes.{slice, blank, length-blank, length-take, slice_within, slice-take}
use a4091_software.Romtool.{
  Inventory, Rom, Slot, device, filesystem1, filesystem2, sizeof_inventory, len, file_of,
}

-- The inventory as it stands in the image.
unfoldable pub inventory_bytes : Inventory → List ℕ
inventory_bytes i =
    lto4b i.filesystem2_dostype
    ++ (lto4b i.filesystem2_offset
        ++ (lto4b i.filesystem2_len
            ++ (lto4b i.filesystem1_dostype
                ++ (lto4b i.filesystem1_offset
                    ++ (lto4b i.filesystem1_len
                        ++ (lto4b i.device_offset
                            ++ (lto4b i.device_len
                                ++ (lto4b i.signature_high ++ lto4b i.signature_low))))))))

abbrev pub used : Inventory → ℕ
used i = i.device_offset + i.device_len + i.filesystem1_len + i.filesystem2_len

-- The new image: the first 32 kB of the old one, erased bytes up to 64 kB, and the inventory over
-- the last bytes.
pub resized : Rom → ℕ → Rom
resized rom newsize =
    let first = take 32768 (rom.body ++ inventory_bytes rom.inv) in
    let grown = if newsize == 64 then first ++ blank 32768 else first in
    record rom { body = take (newsize * 1024 - sizeof_inventory) grown }

-- `freebytes < 32768` is the comparison that its `int` subtractions make; they may go below 0.
unfoldable pub resize : Rom → ℕ → Rom × ℤ
unfolding resized
resize rom newsize =
    if newsize * 1024 == len rom
    then (rom, pos 0)
    else if newsize == 32 && ltb (len rom) (used rom.inv + sizeof_inventory + 32768)
    then (rom, negsuc 0)
    else (resized rom newsize, pos 0)

-- The part of `main` behind the option --resize: the image and `changed`, `none` for the exit.
unfoldable pub resize_option : ℕ → Rom → Option (Rom × Bool)
resize_option newsize rom =
    let (r, rc) = resize rom newsize in
    if newsize == 0
    then some (rom, false)
    else if not (is_zero rc)
    then none
    else some (r, not (newsize * 1024 == len r))

-- An image of 32 or 64 kB whose files lie in the part that the inventory's lengths add up to.
pub record IsPacked (rom : Rom) : Type 0 where
  pub size : (len rom ≡ 32768) ⊎ (len rom ≡ 65536)
  pub second : rom.inv.filesystem1_offset + rom.inv.filesystem1_len ≤ used rom.inv
  pub third : rom.inv.filesystem2_offset + rom.inv.filesystem2_len ≤ used rom.inv
  pub room : used rom.inv ≤ length rom.body

abbrev pub IsSize : ℕ → Type 0
IsSize newsize = (newsize ≡ 32) ⊎ (newsize ≡ 64)
