-- ===== src/Romtool.antt =====
-- The ROM tool, romtool.c: a ROM image with its inventory, replacing one of its files and resizing it.
-- The inventory stands in the last bytes of an image; `body` are the bytes before it. The fields of
-- the inventory are read by `ntohl` and written by `htonl`; here they are numbers.
pub mod Bytes
pub mod Layout
pub mod Readback
pub mod Resize
use a4091_software.Base.{
  ℕ, zero, suc, ◌+◌, ◌-◌, ◌*◌, ◌%◌, ◌^◌, Bool, true, false, ◌&&◌, List, [], ◌∷◌, ◌++◌, length, ltb,
  leb, ◌==◌, if◌then◌else◌,
}
use a4091_software.Base.Int.{ℤ, pos, negsuc}
use Bytes.{slice, erase, put}

-- `struct rom_inventory`.
pub record Inventory : Type 0 where
  pub filesystem2_dostype : ℕ
  pub filesystem2_offset : ℕ
  pub filesystem2_len : ℕ
  pub filesystem1_dostype : ℕ
  pub filesystem1_offset : ℕ
  pub filesystem1_len : ℕ
  pub device_offset : ℕ
  pub device_len : ℕ
  pub signature_high : ℕ
  pub signature_low : ℕ

pub record Rom : Type 0 where
  pub body : List ℕ
  pub inv : Inventory

pub data Slot : Type 0 where
  device filesystem1 filesystem2 : Slot

abbrev pub sizeof_inventory : ℕ
sizeof_inventory = 40

abbrev pub len : Rom → ℕ
len rom = length rom.body + sizeof_inventory

abbrev pub same_slot : Slot → Slot → Bool
same_slot device device = true
same_slot filesystem1 filesystem1 = true
same_slot filesystem2 filesystem2 = true
same_slot _ _ = false

-- The bytes of a file, as `file_backup` copies them.
abbrev pub file_of : Slot → Rom → List ℕ
file_of device rom = slice rom.inv.device_offset rom.inv.device_len rom.body
file_of filesystem1 rom = slice rom.inv.filesystem1_offset rom.inv.filesystem1_len rom.body
file_of filesystem2 rom = slice rom.inv.filesystem2_offset rom.inv.filesystem2_len rom.body

-- An `int`. A negative one is above every length where the two are compared, as are the remainders
-- from 2 ^ 31 on.
pub new_space : Slot → Inventory → ℕ → ℕ
new_space device inv n =
    (inv.device_offset + n + inv.filesystem1_len + inv.filesystem2_len + sizeof_inventory) % 2 ^ 32
new_space filesystem1 inv n =
    (inv.device_offset + inv.device_len + n + inv.filesystem2_len + sizeof_inventory) % 2 ^ 32
new_space filesystem2 inv n =
    (inv.device_offset + inv.device_len + inv.filesystem1_len + n + sizeof_inventory) % 2 ^ 32

abbrev pub set_dostype : Slot → ℕ → Inventory → Inventory
set_dostype device dostype inv = inv
set_dostype filesystem1 dostype inv = record inv { filesystem1_dostype = dostype % 2 ^ 32 }
set_dostype filesystem2 dostype inv = record inv { filesystem2_dostype = dostype % 2 ^ 32 }

-- A file system of no bytes is not written, and its offset stays 0.
abbrev pub place : ℕ → List ℕ → List ℕ → List ℕ
place off bs body = if length bs == 0 then body else put off bs body

abbrev pub offset_of : ℕ → List ℕ → ℕ
offset_of off bs = if length bs == 0 then 0 else off % 2 ^ 32

-- The end of `replace_file`: everything behind the ROM header is erased, and the three files are
-- written one behind the other.
pub lay_out : (files : Slot → List ℕ) → Rom → Rom
lay_out files rom =
    let d = rom.inv.device_offset in
    let o1 = d + length (files device) in
    let o2 = o1 + length (files filesystem1) in
    record {
      body =
          place o2 (files filesystem2)
            (place o1 (files filesystem1) (put d (files device) (erase d rom.body)));
      inv = record (rom.inv) {
        device_len = length (files device) % 2 ^ 32;
        filesystem1_offset = offset_of o1 (files filesystem1);
        filesystem1_len = length (files filesystem1) % 2 ^ 32;
        filesystem2_offset = offset_of o2 (files filesystem2);
        filesystem2_len = length (files filesystem2) % 2 ^ 32;
      };
    }

-- The files after the replacement: the new one, and copies of the two others.
abbrev pub files_with : Slot → List ℕ → Rom → Slot → List ℕ
files_with slot file rom s = if same_slot slot s then file else file_of s rom

-- The image, and 0 or -1. The DosType is stored before the size is checked.
unfoldable pub replace_file : Slot → List ℕ → ℕ → Rom → Rom × ℤ
unfolding new_space lay_out
replace_file slot file dostype rom =
    let marked = record rom { inv = set_dostype slot dostype rom.inv } in
    if ltb (len rom) (new_space slot rom.inv (length file))
    then (marked, negsuc 0)
    else (lay_out (files_with slot file rom) marked, pos 0)
