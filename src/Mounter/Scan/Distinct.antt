-- ===== src/Mounter/Scan/Distinct.antt =====
-- No two devices that the scan adds have the same name.
use a4091_software.Base.{
  ℕ, zero, suc, ◌+◌, ◌≤◌, ◌≡◌, length, refl, ap, Bool, not, ◌&&◌, Option, none, some, List, [], ◌∷◌,
  ◌==◌, arith, Bool-cases, inl, inr,
}
use a4091_software.Mounter.Blocks.{Outcome, Outcome-cases, done, failed, hung, long_at, any_id}
use a4091_software.Mounter.Names.{c_string}
use a4091_software.Mounter.Names.Strings.{IsString, c_string_all, fix-IsString}
use a4091_software.Mounter.Names.Fresh.{IsNew, check_and_fix_dev_name-fresh}
use a4091_software.Mounter.Scan.{
  Node, names, Mounts, World, pb_nomount, pb_name, idname_partition, idname_rigiddisk, fixed_name,
  add_node, mount_part, parse_part, then_more, part_loop, with_last, found, set_last, parse_rdsk,
  scan_from, scan_rdsk,
}

-- No name is that of a node behind it, whatever the case of the letters.
unfoldable pub AllDistinct : List Node → Type 0
AllDistinct [] = Unit
AllDistinct (n ∷ ns) = IsNew n.name (names ns) × AllDistinct ns

-- The partition blocks that can be read have names of at most 31 bytes, as many as pb_DriveName has room for,
-- without a NUL.
unfoldable pub HasNames : World → Type 0
HasNames w =
    (block : ℕ) (buf : List ℕ)
    → w.read block idname_partition ≡ done buf
    → IsString (pb_name buf) × (length (pb_name buf) ≤ 31)

-- As long as the mount list has at most 113 nodes.
abbrev pub Kept : List Node → Type 0
Kept nodes = length nodes ≤ 113 → AllDistinct nodes

length-names : (nodes : List Node) → length (names nodes) ≡ length nodes
length-names [] = refl
length-names (n ∷ ns) = ap (λ (k : ℕ). suc k) (length-names ns)

fixed_name-IsNew :
    (nodes : List Node) (name : List ℕ)
    → IsString name
    → length name ≤ 31
    → length nodes ≤ 112
    → IsNew (c_string (fixed_name nodes name)) (names nodes)
unfolding fixed_name
fixed_name-IsNew nodes name plain short few =
    let (r, e, fresh) =
      check_and_fix_dev_name-fresh (names nodes) name (omega (arith, length-names nodes)) in
    let string = fix-IsString (length (names nodes) + 1) (names nodes) name {r = r} plain e in
    rw (fixed_name, e, c_string_all r string) fresh

mount_part-Kept :
    (w : World) (buf : List ℕ) (md : Mounts)
    → IsString (pb_name buf) × (length (pb_name buf) ≤ 31)
    → Kept md.nodes
    → Kept (mount_part w buf md).nodes
unfolding mount_part add_node AllDistinct
mount_part-Kept w buf md (plain, short) d =
    elim (Bool-cases (not (pb_nomount buf) && (w.memory && w.make_dos_node buf))) [
      | inl mounts ↦ rw mounts (λ few. (
        fixed_name-IsNew md.nodes (pb_name buf) plain short (omega (arith, few)),
        d (omega (arith, few)),
      ))
      | inr skips ↦ rw skips d
    ]

parse_part-Kept :
    (w : World) (block : ℕ) (md : Mounts) {m : Mounts} {next : ℕ}
    → HasNames w
    → Kept md.nodes
    → parse_part w block md ≡ done (m, next)
    → Kept m.nodes
unfolding parse_part
parse_part-Kept w block md {m} {next} named d h = from (w.read block idname_partition) refl h
  where
    from :
        (r : Outcome (List ℕ))
        → w.read block idname_partition ≡ r
        → parse_part w block md ≡ done (m, next)
        → Kept m.nodes
    from (done buf) e h =
        let same : mount_part w buf md ≡ m = cc (rw (e, parse_part) at h) in
        rw same at (mount_part-Kept w buf md (unfold HasNames in named block buf e) d)
    from failed e h = let same : md ≡ m = cc (rw (e, parse_part) at h) in rw same at d
    from hung e h = absurd (stuck (rw (e, parse_part) at h))
      where
        stuck : ◌≡◌ {A = Outcome (Mounts × ℕ)} hung (done (m, next)) → ⊥
        stuck e = cc

loop-Kept :
    (fuel : ℕ) (w : World) (block : ℕ) (md : Mounts) {after : Mounts}
    → HasNames w
    → Kept md.nodes
    → part_loop fuel w block md ≡ some (done after)
    → Kept after.nodes
unfolding part_loop then_more
loop-Kept zero w block md named d h = absurd (ground arith)
loop-Kept (suc fuel) w block md {after} named d h = elim (Bool-cases (block == 0xffffffff)) [
  | inl last ↦ let same : md ≡ after = cc (rw last at h) in rw same at d
  | inr going ↦ elim (Outcome-cases (parse_part w block md)) [
    | inl ((m, next), e) ↦
        loop-Kept fuel w next m {after = after} named (parse_part-Kept w block md named d e)
          (rw (going, e) at h)
    | inr (inl e) ↦ absurd (unlike_failed (rw (going, e) at h))
    | inr (inr e) ↦ absurd (unlike_hung (rw (going, e) at h))
  ]
]
  where
    unlike_failed : some failed ≡ some (done after) → ⊥
    unlike_failed e = cc

    unlike_hung : some hung ≡ some (done after) → ⊥
    unlike_hung e = cc

rdsk-Kept :
    (fuel : ℕ) (w : World) (ignore_last : Bool) (buf : List ℕ) (md : Mounts) {after : Mounts}
    → HasNames w
    → Kept md.nodes
    → parse_rdsk fuel w ignore_last buf md ≡ some (done after)
    → Kept after.nodes
unfolding parse_rdsk with_last set_last
rdsk-Kept fuel w ignore_last buf md {after} named d h =
    from (part_loop fuel w (long_at buf 28) md) refl h
  where
    from :
        (r : Option (Outcome Mounts))
        → part_loop fuel w (long_at buf 28) md ≡ r
        → with_last ignore_last (long_at buf 20) r ≡ some (done after)
        → Kept after.nodes
    from none e h = absurd (ground arith)
    from (some failed) e h = absurd (ground arith)
    from (some hung) e h = absurd (ground arith)
    from (some (done m)) e h =
        let same : set_last ignore_last (long_at buf 20) m ≡ after = cc in
        let kept : m.nodes ≡ after.nodes = ap (λ (x : Mounts). x.nodes) same in
        rw kept at (loop-Kept fuel w (long_at buf 28) md {after = m} named d e)

scan_step :
    (fuel : ℕ) (w : World) (ignore_last : Bool) (left i : ℕ) (md : Mounts) {after : Mounts}
    {was_found : Bool}
    → HasNames w
    → Kept md.nodes
    → scan_from fuel w ignore_last (suc left) i md ≡ some (done (after, was_found))
    → (scan_from fuel w ignore_last left (i + 1) md ≡ some (done (after, was_found))
        → Kept after.nodes)
    → Kept after.nodes
unfolding scan_from found
scan_step fuel w ignore_last left i md {after} {was_found} named d h later =
    elim (Outcome-cases (w.read i any_id)) [
      | inl (buf, e) ↦ elim (Bool-cases (long_at buf 0 == idname_rigiddisk)) [
        | inl rdb ↦
            at_rdb buf (parse_rdsk fuel w ignore_last buf md) refl (rw (e, scan_from, rdb) at h)
        | inr other ↦ later (rw (e, scan_from, other) at h)
      ]
      | inr (inl e) ↦ later (rw (e, scan_from) at h)
      | inr (inr e) ↦ absurd (stuck (rw (e, scan_from) at h))
    ]
  where
    stuck :
        ◌≡◌ {A = Option (Outcome (Mounts × Bool))} (some hung) (some (done (after, was_found))) → ⊥
    stuck e = cc

    at_rdb :
        (buf : List ℕ) (r : Option (Outcome Mounts))
        → parse_rdsk fuel w ignore_last buf md ≡ r
        → found r ≡ some (done (after, was_found))
        → Kept after.nodes
    at_rdb buf none e g = absurd (ground arith)
    at_rdb buf (some failed) e g = absurd (ground arith)
    at_rdb buf (some hung) e g = absurd (ground arith)
    at_rdb buf (some (done m)) e g =
        let same : m ≡ after = cc in
        rw same at (rdsk-Kept fuel w ignore_last buf md {after = m} named d e)

scan-Kept :
    (fuel : ℕ) (w : World) (ignore_last : Bool) (left i : ℕ) (md : Mounts) {after : Mounts}
    {was_found : Bool}
    → HasNames w
    → Kept md.nodes
    → scan_from fuel w ignore_last left i md ≡ some (done (after, was_found))
    → Kept after.nodes
unfolding scan_from found
scan-Kept fuel w ignore_last zero i md {after} {was_found} named d h =
    let same : md ≡ after = cc in rw same at d
scan-Kept fuel w ignore_last (suc left) i md {after} {was_found} named d h =
    scan_step fuel w ignore_last left i md {after = after} {was_found = was_found} named d h (λ e.
      scan-Kept fuel w ignore_last left (i + 1) md {after = after} {was_found = was_found} named d
        e)

pub scan_rdsk-Kept :
    (fuel : ℕ) (w : World) (ignore_last : Bool) (md : Mounts) {after : Mounts} {was_found : Bool}
    → HasNames w
    → Kept md.nodes
    → scan_rdsk fuel w ignore_last md ≡ some (done (after, was_found))
    → Kept after.nodes
unfolding scan_rdsk
scan_rdsk-Kept fuel w ignore_last md {after} {was_found} named d h =
    scan-Kept fuel w ignore_last 16 0 md {after = after} {was_found = was_found} named d h

-- Where the partition blocks that can be read have names of at most 31 bytes without a NUL, `ScanRDSK`
-- keeps the names on the mount list different from one another, whatever the case of their letters: of the
-- devices that it adds, and these and the ones that were there, if the list has at most 113 in the end.
pub scan_rdsk-AllDistinct :
    (fuel : ℕ) (w : World) (ignore_last : Bool) (md : Mounts) {after : Mounts} {was_found : Bool}
    → HasNames w
    → AllDistinct md.nodes
    → scan_rdsk fuel w ignore_last md ≡ some (done (after, was_found))
    → length after.nodes ≤ 113
    → AllDistinct after.nodes
scan_rdsk-AllDistinct fuel w ignore_last md {after} {was_found} named d h few =
    scan_rdsk-Kept fuel w ignore_last md {after = after} {was_found = was_found} named (λ _. d) h
      few
