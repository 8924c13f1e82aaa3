-- ===== src/Mounter/Drive/Names.antt =====
-- The names on the mount list stay distinct over all drives.
use a4091_software.Base.{
  ℕ, zero, suc, ◌+◌, ◌*◌, ◌≤◌, ◌≡◌, length, refl, Bool, true, false, not, ◌&&◌, Option, none, some,
  [], ◌∷◌, ◌==◌, ltb, if◌then◌else◌, Bool-cases, Option-cases, inl, inr,
}
use a4091_software.Base.Int.{negsuc}
use a4091_software.Mounter.Blocks.{Outcome, done, failed, hung}
use a4091_software.Mounter.Scan.{Mounts, World, scan_rdsk}
use a4091_software.Mounter.Scan.Distinct.{AllDistinct, HasNames, Kept, scan_rdsk-Kept}
use a4091_software.Mounter.Drive.{
  Target, MountSettings, Drives, Result, and_then, scan_disk, scan_unit, lun_loop, target_loop,
  mount_drive,
}

-- Where the scan returns, the names are distinct, as long as there are not too many.
IsFine : Result → Type 0
IsFine none = Unit
IsFine (some failed) = Unit
IsFine (some hung) = Unit
IsFine (some (done d)) = Kept d.md.nodes

-- The same of any step: a property of what it gives.
Gives {ℓ} : {A : Type ℓ} → (A → Type 0) → Option (Outcome A) → Type 0
Gives p none = Unit
Gives p (some failed) = Unit
Gives p (some hung) = Unit
Gives p (some (done a)) = p a

and_then-IsFine :
    {A : Type 0} (p : A → Type 0) (o : Option (Outcome A)) (more : A → Result)
    → Gives p o
    → ((a : A) → p a → IsFine (more a))
    → IsFine (and_then o more)
unfolding and_then Gives IsFine
and_then-IsFine p none more g next = tt
and_then-IsFine p (some failed) more g next = tt
and_then-IsFine p (some hung) more g next = tt
and_then-IsFine p (some (done a)) more g next = next a g

scan_rdsk-Gives :
    (fuel : ℕ) (w : World) (ignore_last : Bool) (md : Mounts)
    → HasNames w
    → Kept md.nodes
    → Gives (λ (r : Mounts × Bool). Kept r.0.nodes) (scan_rdsk fuel w ignore_last md)
scan_rdsk-Gives fuel w ignore_last md named d = from (scan_rdsk fuel w ignore_last md) refl
  where
    from :
        (o : Option (Outcome (Mounts × Bool)))
        → scan_rdsk fuel w ignore_last md ≡ o
        → Gives (λ (r : Mounts × Bool). Kept r.0.nodes) o
    from none e = unfold Gives in tt
    from (some failed) e = unfold Gives in tt
    from (some hung) e = unfold Gives in tt
    from (some (done (after, b))) e =
        unfold Gives in
        scan_rdsk-Kept fuel w ignore_last md {after = after} {was_found = b} named d e

scan_disk-IsFine :
    (fuel : ℕ) (ignore_last : Bool) (w : World) (d : Drives)
    → HasNames w
    → Kept d.md.nodes
    → IsFine (scan_disk fuel ignore_last w d)
unfolding scan_disk
scan_disk-IsFine fuel ignore_last w d named h =
    and_then-IsFine (λ (r : Mounts × Bool). Kept r.0.nodes) (scan_rdsk fuel w ignore_last d.md) _
      (scan_rdsk-Gives fuel w ignore_last d.md named h) (λ r g. unfold IsFine in g)

if-IsFine : (b : Bool) (o p : Result) → IsFine o → IsFine p → IsFine (if b then o else p)
if-IsFine true o p f g = f
if-IsFine false o p f g = g

module _ (fuel : ℕ) (set : MountSettings) (units : ℕ → Target)
    (no_cdroms : set.cdrom_boot ≡ false) where
  type-IsFine :
      (u : Target) (d : Drives) (type : ℕ)
      → HasNames u.world
      → u.device_type ≡ some type
      → Kept d.md.nodes
      → IsFine (scan_unit fuel set u d)
  unfolding scan_unit
  type-IsFine u d type named e h = elim (Bool-cases (type == 5)) [
    | inl cdrom ↦ rw (e, cdrom, no_cdroms) (unfold IsFine in h)
    | inr other ↦ elim (Bool-cases (type == 0)) [
      | inl disk ↦
          rw (e, other, disk)
            (scan_disk-IsFine fuel set.ignore_last u.world (record d { ret = negsuc 0 }) named h)
      | inr unknown ↦ rw (e, other, unknown) (unfold IsFine in h)
    ]
  ]

  unit-IsFine :
      (u : Target) (d : Drives)
      → HasNames u.world
      → Kept d.md.nodes
      → IsFine (scan_unit fuel set u d)
  unfolding scan_unit
  unit-IsFine u d named h = elim (Option-cases u.device_type) [
    | inl bad ↦ rw bad (unfold IsFine in h)
    | inr (type, e) ↦ type-IsFine u d type named e h
  ]

  -- A result as what the next step gets.
  gives : (o : Result) → IsFine o → Gives (λ (d : Drives). Kept d.md.nodes) o
  unfolding IsFine Gives
  gives none f = tt
  gives (some failed) f = tt
  gives (some hung) f = tt
  gives (some (done d)) f = f

  lun-IsFine :
      ((n : ℕ) → HasNames (units n).world)
      → (left target lun : ℕ) (more : Drives → Result) (d : Drives)
      → ((e : Drives) → Kept e.md.nodes → IsFine (more e))
      → Kept d.md.nodes
      → IsFine (lun_loop fuel set units left target lun more d)
  unfolding lun_loop
  lun-IsFine named zero target lun more d next h = next d h
  lun-IsFine named (suc left) target lun more d next h =
      let unit = target + lun * 10 in
      let asked : Drives = record d { asked = unit ∷ d.asked } in
      elim (Bool-cases (units unit).opens) [
        | inr closed ↦ rw closed (next asked h)
        | inl opened ↦ rw opened (
            and_then-IsFine (λ (e : Drives). Kept e.md.nodes)
              (scan_unit fuel set (units unit) asked) _
              (gives _ (unit-IsFine (units unit) asked (named unit) h))
              (λ e g.
                if-IsFine (set.luns && (ltb lun 8 && not e.md.was_last_lun)) _ _
                  (lun-IsFine named left target (lun + 1) more e next g)
                  (if-IsFine e.md.was_last_dev (some (done e)) (more e) (unfold IsFine in g)
                    (next e g))))
      ]

  target-IsFine :
      ((n : ℕ) → HasNames (units n).world)
      → (left target : ℕ) (d : Drives) → Kept d.md.nodes
      → IsFine (target_loop fuel set units left target d)
  unfolding target_loop
  target-IsFine named zero target d h = unfold IsFine in h
  target-IsFine named (suc left) target d h =
      lun-IsFine named 9 target 0 _ d (λ e g. target-IsFine named left (target + 1) e g) h

-- Where booting from CD-ROMs is off and the partition blocks that can be read on all units have names of
-- at most 31 bytes without a NUL, `MountDrive`, where it returns, keeps the names on the mount list
-- different from one another, whatever the case of their letters, over all units of the device, if the
-- list has at most 113 in the end.
pub mount_drive-AllDistinct :
    (fuel : ℕ) (set : MountSettings) (units : ℕ → Target) (md : Mounts) (cnt : ℕ) {d : Drives}
    → set.cdrom_boot ≡ false
    → ((n : ℕ) → HasNames (units n).world)
    → AllDistinct md.nodes
    → mount_drive fuel set units md cnt ≡ some (done d)
    → length d.md.nodes ≤ 113
    → AllDistinct d.md.nodes
unfolding mount_drive
mount_drive-AllDistinct fuel set units md cnt {d} off named h e few =
    let first : Drives = record { md = md; cnt = cnt; ret = negsuc 0; asked = [] } in
    let fine = target-IsFine fuel set units off named 8 0 first (λ _. h) in
    let result : IsFine (some (done d)) = rw (e, mount_drive) at fine in
    let kept : Kept d.md.nodes = unfold IsFine in result in kept few
