-- ===== src/Mounter/Relocate/Guarded.antt =====
-- The guards of `fsrelocate` keep its writes within the hunks.
use a4091_software.Base.{
  ℕ, zero, suc, ◌+◌, ◌-◌, ◌*◌, ◌%◌, ◌^◌, ◌≤◌, ◌<◌, ◌≡◌, refl, Bool, true, false, Option, none, some,
  List, ◌==◌, ltb, leb, if◌then◌else◌, arith, length, Bool-cases, Option-cases, inl, inr,
}
use a4091_software.Scsi.{lto4b}
use a4091_software.Mounter.Blocks.{done, failed, hung, long_at}
use a4091_software.Mounter.Lseg.{
  Reader, Lseg, Longs, lseg_read_long, lseg_read_longs, lseg_read_word,
}
use a4091_software.Mounter.Lseg.Count.{Counts, lseg_read_longs-Counts}
use a4091_software.Mounter.Relocate.{Hunk, Final, refused, loaded, hunk_at, bytes_of}
use a4091_software.Mounter.Relocate.Load.{
  Next, relocate, offsets, group_base, groups, contents, section, is_section, is_reloc, hunk_bss,
  hunk_end, hunk_reloc32short, switch_type, load_loop,
}
use a4091_software.Mounter.Relocate.InBounds.{
  Extent, extents, AllSound, Safe, with_value-Safe, known_hunk, write-Safe, length-bytes_of,
  known_length, in_table, Sound-at,
}

ltb-false : {a b : ℕ} → ltb a b ≡ false → b ≤ a
ltb-false h = ground arith

ltb-true : {a b : ℕ} → ltb a b ≡ true → a < b
ltb-true h = ground arith

module _ (zs : List Extent) (sound : AllSound zs) where
  -- Safe from any hunks of the table on.
  abbrev Continues : Next → Type 0
  Continues more = (ks : List Hunk) (t : Lseg) → extents ks ≡ zs → Safe zs (more ks t)

  relocate-Safe :
      (i base offset : ℕ) (hs : List Hunk) (more : List Hunk → Final)
      → extents hs ≡ zs
      → i < length zs
      → ((ks : List Hunk) → extents ks ≡ zs → Safe zs (more ks))
      → Safe zs (relocate i base offset hs more)
  unfolding relocate
  relocate-Safe i base offset hs more e known next =
      let (h, here, (some_longs, few, all)) =
        known_hunk zs sound hs i e (omega (arith, known_length zs hs e)) in
      let bound : (h.size + 2 ^ 32 - 1) * 4 % 2 ^ 32 ≡ (h.size - 1) * 4 = omega arith in
      elim (Bool-cases (ltb ((h.size + 2 ^ 32 - 1) * 4 % 2 ^ 32) offset)) [
        | inl behind ↦ rw (here, behind, relocate) (unfold Safe in e)
        | inr within ↦
            let room : offset + 4 ≤ length h.bytes =
              omega (arith, ltb-false within, bound, all, some_longs) in
            rw (here, within, relocate)
              (write-Safe zs sound i offset (lto4b ((long_at h.bytes offset + base) % 2 ^ 32)) hs h
                more e here room next)
      ]

  offsets-Safe :
      (read : Reader) (count : ℕ) (short : Bool) (i base : ℕ) (hs : List Hunk) (s : Lseg)
      (more : Next)
      → extents hs ≡ zs
      → i < length zs
      → Continues more
      → Safe zs (offsets read count short i base hs s more)
  unfolding offsets
  offsets-Safe read zero short i base hs s more e known next = next hs s e
  offsets-Safe read (suc count) short i base hs s more e known next =
      with_value-Safe zs (if short then lseg_read_word read s else lseg_read_long read s) _
        (refused hs)
        (λ offset t.
          relocate-Safe i base offset hs _ e known
            (λ ks e1. offsets-Safe read count short i base ks t more e1 known next))
        (unfold Safe in e)

  group_base-Safe :
      (first relocated : ℕ) (hs : List Hunk) (more : ℕ → Final)
      → extents hs ≡ zs
      → ((base : ℕ) → Safe zs (more base))
      → Safe zs (group_base first relocated hs more)
  unfolding group_base
  group_base-Safe first relocated hs more e next =
      let target = (relocated + 2 ^ 32 - first) % 2 ^ 32 in
      elim (Bool-cases (leb (length hs) target)) [
        | inl behind ↦ rw (behind, group_base) (unfold Safe in e)
        | inr within ↦
            let (h, here, good) = known_hunk zs sound hs target e (ground arith) in
            rw (within, here, group_base) (next h.addr)
      ]

  groups-Safe :
      (read : Reader) (fuel : ℕ) (short : Bool) (first i : ℕ) (hs : List Hunk) (s : Lseg)
      (more : Next)
      → extents hs ≡ zs
      → i < length zs
      → Continues more
      → Safe zs (groups read fuel short first i hs s more)
  unfolding groups
  groups-Safe read zero short first i hs s more e known next = unfold Safe in tt
  groups-Safe read (suc fuel) short first i hs s more e known next =
      with_value-Safe zs (lseg_read_long read s) _ (refused hs)
        (λ count t. elim (Bool-cases (count == 0)) [
          | inl last ↦ rw last (next hs t e)
          | inr going ↦ rw going (
              with_value-Safe zs (lseg_read_long read t) _ (refused hs)
                (λ relocated u. group_base-Safe first relocated hs _ e (λ base.
                  offsets-Safe read count short i base hs u _ e known
                    (λ ks v e1. groups-Safe read fuel short first i ks v more e1 known next)))
                (unfold Safe in e))
        ])
        (unfold Safe in e)

  contents-Safe :
      (o : Option Longs) (i size : ℕ) (hs : List Hunk) (h : Hunk) (more : Next)
      → extents hs ≡ zs
      → hunk_at hs i ≡ some h
      → 4 * size ≤ length h.bytes
      → Counts size o
      → Continues more
      → Safe zs (contents o i hs more)
  unfolding contents Counts
  contents-Safe none i size hs h more e here room c next = unfold Safe in tt
  contents-Safe (some (hung, t)) i size hs h more e here room c next = unfold Safe in tt
  contents-Safe (some (failed, t)) i size hs h more e here room c next = unfold Safe in e
  contents-Safe (some (done xs, t)) i size hs h more e here room c next =
      write-Safe zs sound i 0 (bytes_of xs) hs h _ e here
        (omega (arith, length-bytes_of xs, c, room)) (λ ks e1. next ks t e1)

  section-Safe :
      (read : Reader) (bss : Bool) (i : ℕ) (hs : List Hunk) (s : Lseg) (more : Next)
      → extents hs ≡ zs
      → (i < length zs → Continues more)
      → Safe zs (section read bss i hs s more)
  unfolding section
  section-Safe read bss i hs s more e next = elim (Option-cases (hunk_at hs i)) [
    | inl behind ↦ rw (behind, section) (unfold Safe in e)
    | inr (h, here) ↦
        let within = in_table hs i here in
        let (some_longs, few, all) = Sound-at zs sound hs i e here in
        let known : i < length zs = omega (arith, known_length zs hs e, within) in
        rw (here, section)
          (with_value-Safe zs (lseg_read_long read s) _ (refused hs)
            (λ size t. elim (Bool-cases (ltb h.size size)) [
              | inl large ↦ rw large (unfold Safe in e)
              | inr fits ↦ elim (Bool-cases bss) [
                | inl empty ↦ rw (fits, empty) (next known hs t e)
                | inr read_in ↦
                    let room : 4 * size ≤ length h.bytes = omega (arith, all, ltb-false fits) in
                    rw (fits, read_in)
                      (contents-Safe (lseg_read_longs read size t) i size hs h more e here room
                        (lseg_read_longs-Counts read size t) (next known))
              ]
            ])
            (unfold Safe in e))
  ]

  -- The hunk being relocated, where one was begun.
  abbrev IsKnown : Option ℕ → Type 0
  IsKnown none = Unit
  IsKnown (some i) = i < length zs

  reloc-Safe :
      (read : Reader) (fuel first type count : ℕ) (current : Option ℕ) (hs : List Hunk) (s : Lseg)
      (next : ℕ → Option ℕ → Next)
      → extents hs ≡ zs
      → IsKnown current
      → ((n : ℕ) (c : Option ℕ) → IsKnown c → Continues (next n c))
      → Safe zs (elim current [
        | none ↦ refused hs
        | some i ↦ groups read fuel (type == hunk_reloc32short) first i hs s (next count (some i))
      ])
  reloc-Safe read fuel first type count none hs s next e k go = unfold Safe in e
  reloc-Safe read fuel first type count (some i) hs s next e k go =
      groups-Safe read fuel (type == hunk_reloc32short) first i hs s (next count (some i)) e k
        (go count (some i) k)

  switch_type-Safe :
      (read : Reader) (fuel first type count : ℕ) (current : Option ℕ) (hs : List Hunk) (s : Lseg)
      (next : ℕ → Option ℕ → Next)
      → extents hs ≡ zs
      → IsKnown current
      → ((n : ℕ) (c : Option ℕ) → IsKnown c → Continues (next n c))
      → Safe zs (switch_type read fuel first type count current hs s next)
  unfolding switch_type
  switch_type-Safe read fuel first type count current hs s next e k go =
      elim (Bool-cases (is_section type)) [
        | inl a ↦ rw a (
            section-Safe read (type == hunk_bss) count hs s _ e
              (λ known. go (count + 1) (some count) known))
        | inr a ↦ elim (Bool-cases (is_reloc type)) [
          | inl b ↦ rw (a, b) (reloc-Safe read fuel first type count current hs s next e k go)
          | inr b ↦ elim (Bool-cases (type == hunk_end)) [
            | inr c ↦ rw (a, b, c) (unfold Safe in e)
            | inl c ↦ elim (Bool-cases (leb (length hs) count)) [
              | inl all ↦ rw (a, b, c, all) (unfold Safe in e)
              | inr more ↦ rw (a, b, c, more) (go count current k hs s e)
            ]
          ]
        ]
      ]

  loop-Safe :
      (read : Reader) (fuel first count : ℕ) (current : Option ℕ) (hs : List Hunk) (s : Lseg)
      → extents hs ≡ zs
      → IsKnown current
      → Safe zs (load_loop read fuel first count current hs s)
  unfolding load_loop
  loop-Safe read zero first count current hs s e k = unfold Safe in tt
  loop-Safe read (suc fuel) first count current hs s e k =
      with_value-Safe zs (lseg_read_long read s) _
        (if leb (length hs) count then loaded hs else refused hs)
        (λ type t.
          switch_type-Safe read fuel first type count current hs t (load_loop read fuel first) e k
            (λ n c j ks u e1. loop-Safe read fuel first n c ks u e1 j))
        (elim (Bool-cases (leb (length hs) count)) [
          | inl all ↦ rw all (unfold Safe in e)
          | inr more ↦ rw more (unfold Safe in e)
        ])

-- Where each hunk of the table has at least one long, fewer than 2 ^ 30 and memory for all of them, the
-- second loop of `fsrelocate` writes within the memory of the hunks only, whatever the blocks hold:
-- it loads, refuses, or does not end within its rounds. The hunks that it loads, or frees, have the
-- sizes, addresses and memory of the table's.
pub load_loop-Safe :
    (read : Reader) (fuel first : ℕ) (hunks : List Hunk) (s : Lseg)
    → AllSound (extents hunks)
    → Safe (extents hunks) (load_loop read fuel first 0 none hunks s)
load_loop-Safe read fuel first hunks s sound =
    loop-Safe (extents hunks) sound read fuel first 0 none hunks s refl tt
