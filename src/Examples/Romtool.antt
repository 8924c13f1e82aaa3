-- ===== src/Examples/Romtool.antt =====
-- The theorems about romtool.c at concrete images.
use a4091_software.Base.{ℕ, ◌≡◌, refl, inl, inr, List, [], ◌∷◌, arith, length, if◌then◌else◌}
use a4091_software.Base.Int.{pos}
use a4091_software.Romtool.Bytes.{blank, length-blank}
use a4091_software.Romtool.{
  Inventory, Rom, Slot, filesystem1, filesystem2, same_slot, file_of, replace_file,
}
use a4091_software.Romtool.Layout.{IsValid}
use a4091_software.Romtool.Readback.{replace_file-file_of}
use a4091_software.Romtool.Resize.{IsPacked, resize}
use a4091_software.Romtool.Resize.Files.{resize-file_of, resize_grow}

abbrev inventory : Inventory
inventory = record {
  filesystem2_dostype = 0;
  filesystem2_offset = 5;
  filesystem2_len = 2;
  filesystem1_dostype = 0x43443031;
  filesystem1_offset = 4;
  filesystem1_len = 1;
  device_offset = 2;
  device_len = 2;
  signature_high = 0xffff5352;
  signature_low = 0x2f434448;
}

-- Two bytes of header, a driver of two bytes, file systems of one and of two bytes.
abbrev image : Rom
image = record { body = 1 ∷ 2 ∷ 3 ∷ 4 ∷ 5 ∷ 6 ∷ 7 ∷ 8 ∷ 9 ∷ 10 ∷ []; inv = inventory }

image-IsValid : IsValid image
image-IsValid = record {
  header = omega arith;
  first = omega arith;
  second = omega arith;
  third = omega arith;
  size = omega arith;
}

abbrev new_file : List ℕ
new_file = 20 ∷ 21 ∷ 22 ∷ []

abbrev too_long : List ℕ
too_long = 20 ∷ 21 ∷ 22 ∷ 23 ∷ 24 ∷ []

replace_file-file_of_example :
    let r = replace_file filesystem1 new_file 0x43443032 image in
    (r.1 ≡ pos 0)
    × ((s : Slot) → file_of s r.0 ≡ (if same_slot filesystem1 s then new_file else file_of s image))
    × (length r.0.body ≡ length image.body)
replace_file-file_of_example =
    replace_file-file_of filesystem1 new_file 0x43443032 image image-IsValid (omega arith)
      (omega arith)

abbrev small_image : Rom
small_image = record { body = blank 32728; inv = inventory }

small_image-IsPacked : IsPacked small_image
small_image-IsPacked = record {
  size = inl (omega (arith, length-blank 32728));
  second = omega arith;
  third = omega arith;
  room = omega (arith, length-blank 32728);
}

grows : (resize small_image 64).1 ≡ pos 0
grows = rw (resize_grow small_image (omega (arith, length-blank 32728))) refl

resize-file_of_example :
    file_of filesystem2 (resize small_image 64).0 ≡ file_of filesystem2 small_image
resize-file_of_example =
    resize-file_of small_image 64 (inr refl) small_image-IsPacked grows filesystem2
