-- ===== src/Examples/Battmem.antt =====
-- The theorem about battmem.c for a memory that is a function from addresses.
use a4091_software.Base.{ℕ, ◌≤◌, ◌≡◌, true, ◌==◌, if◌then◌else◌, arith}
use a4091_software.Battmem.{Settings, lnot, load_battmem, save_battmem, load_battmem-save_battmem}

abbrev read : (ℕ → ℕ) → ℕ → ℕ
read m addr = m addr

abbrev write : (ℕ → ℕ) → ℕ → ℕ → ℕ → ℕ
write m addr bit other = if other == addr then bit else m other

written : (m : ℕ → ℕ) (addr bit : ℕ) → bit ≤ 1 → read (write m addr bit) addr ≡ bit
written m addr bit h = ground arith

abbrev empty : ℕ → ℕ
empty addr = 0

abbrev both_on : Settings
both_on = record { cdrom_boot = 1; ignore_last = 1 }

abbrev both_off : Settings
both_off = record { cdrom_boot = 0; ignore_last = 0 }

load_battmem-save_battmem_example :
    load_battmem read write true (save_battmem read write true empty both_on).0 both_off
    ≡ (record { cdrom_boot = lnot 1; ignore_last = 0 }, 1)
load_battmem-save_battmem_example =
    load_battmem-save_battmem read write written empty both_on both_off (omega arith)
