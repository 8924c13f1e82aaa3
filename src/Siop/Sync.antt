-- ===== src/Siop/Sync.antt =====
-- The parameters of synchronous transfers in siop.c: the clock periods of `siopinitialize`, and
-- `scsi_period_to_siop`, which chooses the chip's divider for the period and offset of a target.
pub mod Period
use a4091_software.Base.{
  ℕ, zero, suc, ◌+◌, ◌-◌, ◌*◌, ◌/◌, ◌%◌, ◌^◌, Bool, true, false, ◌||◌, Option, none, some, ◌==◌,
  ltb, leb, if◌then◌else◌,
}

-- sc_tcp[1], sc_tcp[2] and sc_tcp[3], in ns, of a clock in MHz.
unfoldable pub sc_tcp : ℕ → ℕ → ℕ
sc_tcp clock_freq sbcl = (500 + 500 * sbcl) / clock_freq

abbrev pub siop_max_offset : ℕ
siop_max_offset = 8

-- (period - 1) / sc_tcp[sbcl] - 3, where it is from 0 to 7. A period of 0 gives -3.
unfoldable pub divider : ℕ → ℕ → Option ℕ
divider period tcp =
    let q = (period - 1) / tcp in if ltb q 3 || ltb 10 q then none else some (q - 3)

-- The loop over the prescalers 1, 2 and 3; `left` of them are to be tried.
unfoldable pub search_sbcl : (clock_freq period left : ℕ) → Option (ℕ × ℕ)
unfolding sc_tcp divider
search_sbcl clock_freq period zero = none
search_sbcl clock_freq period (suc left) =
    let rest = search_sbcl clock_freq period left in
    elim (divider period (sc_tcp clock_freq (3 - left))) [
      | none ↦ rest
      | some d ↦ some (d, 3 - left)
    ]

-- sxfer and sbcl. `factor` and `offset` are the fourth and fifth byte of the message.
unfoldable pub scsi_period_to_siop : (clock_freq factor offset : ℕ) → ℕ × ℕ
unfolding search_sbcl
scsi_period_to_siop clock_freq factor offset = elim (search_sbcl clock_freq (factor * 4) 3) [
  | none ↦ (0, 0)
  | some r ↦ (r.0 * 2 ^ 4 + (if leb offset siop_max_offset then offset else siop_max_offset), r.1)
]
