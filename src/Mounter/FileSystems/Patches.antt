-- ===== src/Mounter/FileSystems/Patches.antt =====
-- What a partition's device node gets from the header of its file system.
use a4091_software.Base.{
  ℕ, zero, suc, ◌+◌, ◌*◌, ◌/◌, ◌%◌, ◌^◌, ◌<◌, ◌≡◌, refl, ◌∙◌, Bool, true, false, not, List, [], ◌∷◌,
  ◌==◌, if◌then◌else◌, arith, length, get_or, Bool-cases, inl, inr,
}
use a4091_software.Mounter.Blocks.{long_at}
use a4091_software.Mounter.FileSystems.{
  FileSysEntry, copy_patches, entry_long, process_patch_flags, new_entry, fhb_patch_flags,
}

-- Whether bit i is set.
unfoldable pub is_set : (i flags : ℕ) → Bool
is_set zero flags = not (flags % 2 == 0)
is_set (suc i) flags = is_set i (flags / 2)

is_set_zero : (i : ℕ) → is_set i 0 ≡ false
unfolding is_set
is_set_zero zero = refl
is_set_zero (suc i) = is_set_zero i

not_both : (i : ℕ) → is_set i 0 ≡ true → ⊥
not_both i h = let e = is_set_zero i in cc (h, e)

first_long :
    (offset : ℕ) (rest buf : List ℕ) (i flags : ℕ)
    → is_set i flags ≡ true
    → ((k : ℕ) → is_set k (flags / 2) ≡ true → get_or rest k 0 ≡ long_at buf (offset + 4 + 4 * k))
    → get_or (long_at buf offset ∷ rest) i 0 ≡ long_at buf (offset + 4 * i)
unfolding is_set
first_long offset rest buf zero flags set right =
    let here : offset + 4 * 0 ≡ offset = omega arith in rw here refl
first_long offset rest buf (suc k) flags set right =
    let there : offset + 4 * suc k ≡ offset + 4 + 4 * k = omega arith in rw there (right k set)

-- A bit that is set takes the long of the source, at its place; the others stay.
process-long :
    (fuel flags place i : ℕ) (src : ℕ → ℕ) (node : List ℕ)
    → flags < 2 ^ fuel
    → i < length node
    → get_or (process_patch_flags fuel flags place src node) i 0
      ≡ (if is_set i flags then src (place + i) else get_or node i 0)
unfolding process_patch_flags is_set
process-long fuel flags place i src [] small inside = absurd (omega (arith, inside))
process-long zero flags place i src (d ∷ ds) small inside =
    let none_set : flags ≡ 0 = omega (arith, small) in rw (none_set, is_set_zero i) refl
process-long (suc fuel) flags place zero src (d ∷ ds) small inside =
    let here : place + 0 ≡ place = omega arith in
    elim (Bool-cases (flags == 0)) [
      | inl e ↦ let none_set : flags ≡ 0 = ground arith in rw none_set refl
      | inr some_set ↦ elim (Bool-cases (flags % 2 == 0)) [
        | inl even ↦ rw (some_set, even) refl
        | inr odd ↦ rw (some_set, odd, here) refl
      ]
    ]
process-long (suc fuel) flags place (suc i) src (d ∷ ds) small inside =
    let there : place + suc i ≡ place + 1 + i = omega arith in
    let rest =
      process-long fuel (flags / 2) (place + 1) i src ds (omega (arith, small))
        (omega (arith, inside)) in
    elim (Bool-cases (flags == 0)) [
      | inl e ↦ let none_set : flags ≡ 0 = ground arith in rw (none_set, is_set_zero i) refl
      | inr some_set ↦ rw (some_set, there) rest
    ]

-- The long of a bit that is set was copied.
copy-long :
    (fuel flags offset i : ℕ) (buf : List ℕ)
    → flags < 2 ^ fuel
    → is_set i flags ≡ true
    → get_or (copy_patches fuel flags offset buf) i 0 ≡ long_at buf (offset + 4 * i)
unfolding copy_patches is_set
copy-long zero flags offset i buf small set =
    let none_set : flags ≡ 0 = omega (arith, small) in absurd (not_both i (rw none_set at set))
copy-long (suc fuel) flags offset i buf small set = elim (Bool-cases (flags == 0)) [
  | inl e ↦ let none_set : flags ≡ 0 = ground arith in absurd (not_both i (rw none_set at set))
  | inr some_set ↦ rw some_set (
      first_long offset (copy_patches fuel (flags / 2) (offset + 4) buf) buf i flags set
        (λ k h. copy-long fuel (flags / 2) (offset + 4) k buf (omega (arith, small)) h))
]

-- Where the device node gets its fields from a new entry for a header's block, field i, counted from the
-- type on, changes if bit i of the header's patch flags is set, and only then: it becomes the header's, or
-- what was loaded, if it is the list of segments (i is 7). The header has flags for the nine fields.
pub process_patch_flags-new_entry :
    (buf node : List ℕ) (seg_list i : ℕ)
    → fhb_patch_flags buf < 2 ^ 9
    → i < length node
    → get_or
        (process_patch_flags 33
          (fhb_patch_flags buf)
          0
          (entry_long record (new_entry buf) { seg_list = seg_list })
          node)
        i
        0
      ≡ (if is_set i (fhb_patch_flags buf)
          then (if i == 7 then seg_list else long_at buf (44 + 4 * i))
          else get_or node i 0)
unfolding new_entry entry_long
process_patch_flags-new_entry buf node seg_list i small inside =
    let flags = fhb_patch_flags buf in
    let bound : flags < 2 ^ 33 = omega (arith, small) in
    let e : FileSysEntry = record (new_entry buf) { seg_list = seg_list } in
    let place : 0 + i ≡ i = omega arith in
    let all = rw place at (process-long 33 flags 0 i (entry_long e) node bound inside) in
    elim (Bool-cases (is_set i flags)) [
      | inl set ↦ elim (Bool-cases (i == 7)) [
        | inl seven ↦ rw (set, seven) (rw (set, seven) at all)
        | inr other ↦
            rw (set, other) (rw (set, other) at all ∙ copy-long 33 flags 44 i buf bound set)
      ]
      | inr clear ↦ rw clear (rw clear at all)
    ]
