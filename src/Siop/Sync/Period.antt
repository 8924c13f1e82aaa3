-- ===== src/Siop/Sync/Period.antt =====
-- The chosen period is never shorter than the target's.
use native.Mathlib.Nat.{lt-mul-div-succ, le-div_iff_mul-le}
use a4091_software.Base.{
  ℕ, zero, suc, ◌+◌, ◌-◌, ◌*◌, ◌/◌, ◌%◌, ◌^◌, ◌≤◌, ◌<◌, ◌≡◌, ◌⊎◌, sym, ◌||◌, Option, none, some,
  ltb, leb, if◌then◌else◌, arith, Bool-cases, Option-cases, inl, inr,
}
use a4091_software.Siop.Sync.{sc_tcp, siop_max_offset, divider, search_sbcl, scsi_period_to_siop}

-- The period in ns that the chip takes for a transfer, by its registers: the divided clock's period,
-- 4 times and as often again as the upper half of sxfer says.
unfoldable pub chip_period : ℕ → ℕ → ℕ → ℕ
chip_period clock_freq sxfer sbcl = sc_tcp clock_freq sbcl * (sxfer / 2 ^ 4 + 4)

divider_long :
    (period tcp d : ℕ) → 0 < tcp → divider period tcp ≡ some d → (period ≤ tcp * (d + 4)) × (d ≤ 7)
unfolding divider
divider_long period tcp d h e = elim (Bool-cases (ltb q 3 || ltb 10 q)) [
  | inl out ↦ absurd (stuck (rw out at e))
  | inr within ↦
      let d_is : q - 3 ≡ d = cc (rw within at e) in
      let low : 3 ≤ q = ground arith in
      let high : q ≤ 10 = ground arith in
      let same : d + 4 ≡ q + 1 = omega (arith, d_is, low) in
      let long : period - 1 < tcp * (q + 1) = lt-mul-div-succ (period - 1) h in
      (rw same (omega (arith, long)), omega (arith, d_is, high))
]
  where
    q : ℕ
    q = (period - 1) / tcp

    stuck : ◌≡◌ {A = Option ℕ} none (some d) → ⊥
    stuck e = cc

sc_tcp_pos :
    (clock_freq sbcl : ℕ)
    → 0 < clock_freq
    → clock_freq ≤ 1000
    → 1 ≤ sbcl
    → 0 < sc_tcp clock_freq sbcl
unfolding sc_tcp
sc_tcp_pos clock_freq sbcl c h b =
    omega (arith, (le-div_iff_mul-le {x = 1} {y = 500 + 500 * sbcl} c).1 (omega arith))

-- What the loop finds.
search_long :
    (clock_freq period left : ℕ) {d sbcl : ℕ}
    → 0 < clock_freq
    → clock_freq ≤ 1000
    → left ≤ 3
    → search_sbcl clock_freq period left ≡ some (d, sbcl)
    → (period ≤ sc_tcp clock_freq sbcl * (d + 4)) × (d ≤ 7)
unfolding search_sbcl
search_long clock_freq period zero {d} {sbcl} c h l e = absurd (stuck e)
  where
    stuck : ◌≡◌ {A = Option (ℕ × ℕ)} none (some (d, sbcl)) → ⊥
    stuck e = cc
search_long clock_freq period (suc left) {d} {sbcl} c h l e =
    elim (Option-cases (divider period tcp)) [
      | inl missing ↦
          search_long clock_freq period left c h (omega (arith, l)) (rw (missing, search_sbcl) at e)
      | inr (x, hit) ↦
          let both : ◌≡◌ {A = Option (ℕ × ℕ)} (some (x, 3 - left)) (some (d, sbcl)) =
            rw (hit, search_sbcl) at e in
          let d_is : x ≡ d = cc in
          let sbcl_is : 3 - left ≡ sbcl = cc in
          rw (sbcl_is, d_is) at
            (divider_long period tcp x (sc_tcp_pos clock_freq (3 - left) c h (omega (arith, l)))
              hit)
    ]
  where
    tcp : ℕ
    tcp = sc_tcp clock_freq (3 - left)

-- For a clock of up to 1000 MHz the registers that `scsi_period_to_siop` chooses are asynchronous (both 0),
-- or give transfers that take at least the period that the target named, 4 ns times its factor. The
-- offset, the lower half of sxfer, is at most the target's and at most 8, and sxfer is below 128.
pub scsi_period_to_siop-chip_period :
    (clock_freq factor offset : ℕ) {sxfer sbcl : ℕ}
    → 0 < clock_freq
    → clock_freq ≤ 1000
    → scsi_period_to_siop clock_freq factor offset ≡ (sxfer, sbcl)
    → (((sxfer ≡ 0) × (sbcl ≡ 0)) ⊎ (factor * 4 ≤ chip_period clock_freq sxfer sbcl))
      × (sxfer % 2 ^ 4 ≤ offset)
      × (sxfer % 2 ^ 4 ≤ siop_max_offset)
      × (sxfer < 128)
unfolding scsi_period_to_siop chip_period
scsi_period_to_siop-chip_period clock_freq factor offset {sxfer} {sbcl} c h e =
    elim (Option-cases (search_sbcl clock_freq (factor * 4) 3)) [
      | inl missing ↦
          let x : 0 ≡ sxfer = cc (rw (missing, scsi_period_to_siop) at e) in
          let y : 0 ≡ sbcl = cc (rw (missing, scsi_period_to_siop) at e) in
          (inl (sym x, sym y), omega (arith, x), omega (arith, x), omega (arith, x))
      | inr ((d, b), hit) ↦
          let low : ℕ = if leb offset siop_max_offset then offset else siop_max_offset in
          let both : ◌≡◌ {A = ℕ × ℕ} (d * 2 ^ 4 + low, b) (sxfer, sbcl) =
            rw (hit, scsi_period_to_siop) at e in
          let x : d * 2 ^ 4 + low ≡ sxfer = cc in
          let y : b ≡ sbcl = cc in
          let small : low ≤ 8 = ground arith in
          let asked : low ≤ offset = ground arith in
          let (long, few) = search_long clock_freq (factor * 4) 3 c h (omega arith) hit in
          let upper : sxfer / 2 ^ 4 ≡ d = omega (arith, x, small) in
          let lower : sxfer % 2 ^ 4 ≡ low = omega (arith, x, small) in
          (
            inr (rw (upper, ← y) long),
            omega (arith, lower, asked),
            omega (arith, lower, small),
            omega (arith, x, small, few),
          )
    ]
