-- ===== src/Sd/Direct/Sense.antt =====
-- The sense data that a failed SCSI Direct command hands back.
use a4091_software.Base.{
  ℕ, zero, suc, min, ◌≤◌, ◌≡◌, ◌≢◌, refl, ap, true, List, [], ◌∷◌, Option, arith, length, ltb, take,
  drop, if◌then◌else◌,
}
use a4091_software.Base.Int.{pos, is_zero_of_ne}
use a4091_software.Sd.Errors.{XsResult, translate_xs_error}
use a4091_software.Sd.Direct.{ScsiCmd, copy_mem, scsidirect_completed}

copy_mem-drop :
    (n : ℕ) (source dest : List ℕ) (m : ℕ) → n ≤ m → drop m (copy_mem n source dest) ≡ drop m dest
unfolding copy_mem
copy_mem-drop zero source dest m h = refl
copy_mem-drop (suc n) source dest zero h = absurd (omega arith)
copy_mem-drop (suc n) [] dest (suc m) h = refl
copy_mem-drop (suc n) (b ∷ bs) [] (suc m) h = refl
copy_mem-drop (suc n) (b ∷ bs) (d ∷ ds) (suc m) h = copy_mem-drop n bs ds m (omega arith)

copy_mem-take :
    (n : ℕ) (source dest : List ℕ)
    → n ≤ length source
    → n ≤ length dest
    → take n (copy_mem n source dest) ≡ take n source
unfolding copy_mem
copy_mem-take zero source dest h k = refl
copy_mem-take (suc n) [] dest h k = absurd (omega arith)
copy_mem-take (suc n) (b ∷ bs) [] h k = absurd (omega arith)
copy_mem-take (suc n) (b ∷ bs) (d ∷ ds) h k =
    ap (λ (t : List ℕ). b ∷ t) (copy_mem-take n bs ds (omega arith) (omega arith))

min_of_test : (a b : ℕ) → min a b ≡ (if ltb a b then a else b)
min_of_test a b = ground arith

-- What a failure with autosense stores.
completed_sense :
    (scmd : ScsiCmd) (xs : XsResult) (sense : List ℕ) (ior : Option ℕ)
    → translate_xs_error xs ≢ pos 0
    → scmd.autosense ≡ true
    → let c = (scsidirect_completed scmd xs sense ior).0 in
      let len = min (length sense) scmd.sense_length in
      (c.sense_actual ≡ len) × (c.sense_data ≡ copy_mem len sense scmd.sense_data)
unfolding scsidirect_completed
completed_sense scmd xs sense ior failed asked =
    rw
      (
        is_zero_of_ne (translate_xs_error xs) failed,
        asked,
        ← min_of_test (length sense) scmd.sense_length,
      )
      (refl, refl)

module _ (scmd : ScsiCmd) (xs : XsResult) (sense : List ℕ) (ior : Option ℕ) where
  -- Where the transfer failed and the caller asked for sense data, into a buffer that has the length
  -- it claims, scsi_SenseActual is the smaller of that length and the sense data's, the buffer starts
  -- with that many bytes of the sense data, and the bytes behind them are what they were.
  pub scsidirect_completed-sense :
      translate_xs_error xs ≢ pos 0
      → scmd.autosense ≡ true
      → scmd.sense_length ≤ length scmd.sense_data
      → let c = (scsidirect_completed scmd xs sense ior).0 in
        (c.sense_actual ≡ min (length sense) scmd.sense_length)
        × (take c.sense_actual c.sense_data ≡ take c.sense_actual sense)
        × (drop c.sense_actual c.sense_data ≡ drop c.sense_actual scmd.sense_data)
  scsidirect_completed-sense failed asked room =
      let (len, bytes) = completed_sense scmd xs sense ior failed asked in
      (
        len,
        rw (len, bytes) (copy_mem-take _ sense scmd.sense_data (omega arith) (omega arith)),
        rw (len, bytes) (copy_mem-drop _ sense scmd.sense_data _ (omega arith)),
      )
