-- ===== src/Mounter/Names/Fresh.antt =====
-- `CheckAndFixDevName` ends, with a name that no other device has.
use a4091_software.Base.{
  ℕ, zero, suc, ◌+◌, ◌*◌, ◌%◌, ◌≤◌, ◌<◌, ◌≡◌, ◌≢◌, refl, sym, ◌∙◌, ap, ==_iff, map, ◌||◌, true,
  false, ◌&&◌, some, List, [], ◌∷◌, ◌==◌, leb, if◌then◌else◌, length, arith, Bool-cases, inl, inr,
}
use a4091_software.Base.Table.{every_below, every_below_lem}
use a4091_software.Mounter.Names.{
  to_upper, same_bytes, compare_bstr_no_case, rename, is_taken, check_and_fix_dev_name,
}
use a4091_software.Mounter.Names.Climb.{
  to_upper-mod, rename-rank, rank, above, above-length, above-lt,
}

-- A byte without its case, where it is a letter of ASCII.
unfoldable pub lower : ℕ → ℕ
lower c = let b = c % 256 in if leb b'A' b && leb b b'Z' then b + 32 else b

-- The name is none of a list, whatever the case of the letters.
unfoldable pub IsNew : List ℕ → List (List ℕ) → Type 0
IsNew name [] = Unit
IsNew name (n ∷ ns) = (map lower name ≢ map lower n) × IsNew name ns

lower_table : every_below 256 (λ c. to_upper (lower c) == to_upper c) ≡ true
unfolding every_below to_upper lower
lower_table = refl

lower-mod : (c : ℕ) → lower (c % 256) ≡ lower c
unfolding lower
lower-mod c = let e : c % 256 % 256 ≡ c % 256 = omega arith in rw e refl

to_upper-lower : (c : ℕ) → to_upper (lower c) ≡ to_upper c
to_upper-lower c =
    ground (
      arith,
      every_below_lem 256 _ (c % 256) lower_table,
      to_upper-mod c,
      ap to_upper (lower-mod c),
    )

same_upper : (x y : ℕ) → lower x ≡ lower y → (to_upper x == to_upper y) ≡ true
same_upper x y e =
    (==_iff (to_upper x) (to_upper y)).1
      (sym (to_upper-lower x) ∙ (ap to_upper e ∙ to_upper-lower y))

-- The comparison finds all names that differ in the case of letters only.
lower-compare :
    (xs ys : List ℕ)
    → map lower xs ≡ map lower ys
    → (length xs ≡ length ys) × (same_bytes xs ys ≡ true)
unfolding same_bytes
lower-compare [] [] e = (refl, refl)
lower-compare [] (y ∷ ys) e = absurd (cc e)
lower-compare (x ∷ xs) [] e = absurd (cc e)
lower-compare (x ∷ xs) (y ∷ ys) e =
    let first : lower x ≡ lower y = cc e in
    let others : map lower xs ≡ map lower ys = cc e in
    let (l, s) = lower-compare xs ys others in (omega arith, rw (same_upper x y first, s) refl)

is_taken-IsNew : (name : List ℕ) (ns : List (List ℕ)) → is_taken name ns ≡ false → IsNew name ns
unfolding is_taken IsNew compare_bstr_no_case
is_taken-IsNew name [] h = tt
is_taken-IsNew name (n ∷ ns) h =
    ((λ e. let (l, s) = lower-compare name n e in clash l s h), is_taken-IsNew name ns (rest h))
  where
    clash :
        length name ≡ length n
        → same_bytes name n ≡ true
        → ((length name == length n && same_bytes name n) || is_taken name ns) ≡ false
        → ⊥
    clash l s g = ground arith

    rest :
        ((length name == length n && same_bytes name n) || is_taken name ns) ≡ false
        → is_taken name ns ≡ false
    rest g = ground arith

fix-IsNew :
    (fuel : ℕ) (ns : List (List ℕ)) (name : List ℕ)
    → above (rank name) ns < fuel
    → length name + 2 * above (rank name) ns ≤ 255
    → (r : List ℕ) × (check_and_fix_dev_name fuel ns name ≡ some r) × IsNew r ns
unfolding check_and_fix_dev_name
fix-IsNew zero ns name h short = absurd (omega arith)
fix-IsNew (suc fuel) ns name h short = elim (Bool-cases (is_taken name ns)) [
  | inl met ↦
      let one_more = above-lt name (suc (rank name)) ns (omega arith) met in
      let (higher, longer) = rename-rank name (omega (arith, one_more)) in
      let fewer = above-lt name (rank (rename name)) ns higher met in
      let (r, e, fresh) = fix-IsNew fuel ns (rename name) (omega arith) (omega arith) in
      (r, rw (met, e) refl, fresh)
  | inr free ↦ (name, rw free refl, is_taken-IsNew name ns free)
]

-- Where a name and two bytes for each name in the mount list fit into 255 bytes, `CheckAndFixDevName`
-- ends after at most as many changes as there are names in the list, with a name that differs from each
-- of these in more than the case of its letters.
pub check_and_fix_dev_name-fresh :
    (ns : List (List ℕ)) (name : List ℕ)
    → length name + 2 * length ns ≤ 255
    → (r : List ℕ) × (check_and_fix_dev_name (length ns + 1) ns name ≡ some r) × IsNew r ns
check_and_fix_dev_name-fresh ns name short =
    let most = above-length (rank name) ns in
    fix-IsNew (length ns + 1) ns name (omega (arith, most)) (omega (arith, most))
