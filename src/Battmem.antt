-- ===== src/Battmem.antt =====
-- The driver's two settings in battery-backed memory, battmem.c. The resource is AmigaOS's: `read`
-- and `write` are ReadBattMem and WriteBattMem of one bit at an address, `opened` says whether
-- OpenResource found it. The settings are the fields of `asave` of the same names.
use a4091_software.Base.{ℕ, ◌≡◌, ◌≤◌, refl, Bool, true, ◌==◌, if◌then◌else◌}

pub record Settings : Type 0 where
  pub cdrom_boot : ℕ
  pub ignore_last : ℕ

abbrev pub cdrom_boot_addr : ℕ
cdrom_boot_addr = 72

abbrev pub ignore_last_addr : ℕ
ignore_last_addr = 73

-- The C operator `!`.
abbrev pub lnot : ℕ → ℕ
lnot n = if n == 0 then 1 else 0

module _ {Mem : Type 0} (read : Mem → ℕ → ℕ) (write : Mem → ℕ → ℕ → Mem) where
  -- Both reads go to the variable `cdrom_boot`; `ignore_last` stays 0. The result is 0 or 1.
  unfoldable pub load_battmem : (opened : Bool) → Mem → Settings → Settings × ℕ
  load_battmem opened m s =
      let first = read m cdrom_boot_addr in
      let second = read m ignore_last_addr in
      if opened then (record { cdrom_boot = lnot second; ignore_last = 0 }, 1) else (s, 0)

  unfoldable pub save_battmem : (opened : Bool) → Mem → Settings → Mem × ℕ
  save_battmem opened m s =
      if opened
      then (write (write m cdrom_boot_addr (lnot s.cdrom_boot)) ignore_last_addr s.ignore_last, 1)
      else (m, 0)

  -- What is loaded after saving does not depend on the saved cdrom_boot: cdrom_boot becomes the
  -- inverse of the saved ignore_last, and ignore_last becomes 0; for a memory that reads back a bit
  -- that was written.
  pub load_battmem-save_battmem :
      ((m : Mem) (addr bit : ℕ) → bit ≤ 1 → read (write m addr bit) addr ≡ bit)
      → (m : Mem) (s t : Settings) → s.ignore_last ≤ 1
      → load_battmem true (save_battmem true m s).0 t
        ≡ (record { cdrom_boot = lnot s.ignore_last; ignore_last = 0 }, 1)
  unfolding load_battmem save_battmem
  load_battmem-save_battmem written m s t bit =
      rw (written (write m cdrom_boot_addr (lnot s.cdrom_boot)) ignore_last_addr s.ignore_last bit)
        refl
