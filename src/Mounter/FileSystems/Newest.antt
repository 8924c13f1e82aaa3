-- ===== src/Mounter/FileSystems/Newest.antt =====
-- FileSystem.resource has the newest version of each file system first, and mounter.c chooses that one.
use a4091_software.Base.{
  ℕ, suc, ◌≤◌, ◌≡◌, refl, ◌⊎◌, if◌then◌else◌, true, false, Option, none, some, List, ◌==◌, arith,
  Bool-cases, Option-cases, ==_iff, In, here, inl, inr,
}
use a4091_software.Mounter.Blocks.{Outcome, done, failed}
use a4091_software.Mounter.FileSystems.Sorted.{
  AllBelow, AllAtMost, IsNewestFirst, below_at_most, first_entry-none, first_entry-some,
  AllAtMost-In,
}
use a4091_software.Mounter.FileSystems.{
  FileSysEntry, Resource, Pointer, null, tail, listed, new, freed, Memory, first_entry, new_entry,
  with_resource, scan_entries, fshd_process, fshd_add, process_header, or_listed, fshd_loop,
  then_listed, parse_fshd, fhb_dos_type, fhb_version, fhb_next, fhb_seg_list_blocks,
  idname_filesysheader,
}

-- The answer for a type: the newest entry of the list, and at least of a version; an entry of the type that
-- was freed; or the end of the list, where it has no entry of the type.
unfoldable pub IsAnswer : (dos_type version : ℕ) → Pointer → List FileSysEntry → Type 0
IsAnswer t v (listed e) es = (e.dos_type ≡ t) × (v ≤ e.version) × In e es × AllAtMost t e.version es
IsAnswer t v (freed e) es = e.dos_type ≡ t
IsAnswer t v tail es = AllBelow t 0 es
IsAnswer t v (new e) es = ⊥
IsAnswer t v null es = ⊥

-- From a block the headers come to an end, to a block that is not read, or to a header of the type, after
-- at most n others. `version` is that header's, or 0.
pub data HeaderChain (read : (block id : ℕ) → Outcome (List ℕ)) (t : ℕ)
    : (version n block : ℕ) → Type 0 where
  ends : (n : ℕ) → HeaderChain read t 0 n 0xffffffff
  unreadable :
      (n b : ℕ)
      → (b == 0xffffffff) ≡ false
      → read b idname_filesysheader ≡ failed
      → HeaderChain read t 0 n b
  reached :
      (n b : ℕ) (buf : List ℕ)
      → (b == 0xffffffff) ≡ false
      → read b idname_filesysheader ≡ done buf
      → fhb_dos_type buf ≡ t
      → HeaderChain read t (fhb_version buf) n b
  further :
      (version n b : ℕ) (buf : List ℕ)
      → (b == 0xffffffff) ≡ false
      → read b idname_filesysheader ≡ done buf
      → (fhb_dos_type buf == t) ≡ false
      → HeaderChain read t version n (fhb_next buf)
      → HeaderChain read t version (suc n) b

-- A pointer and the resource after it: the resource is sorted, and the pointer is an answer.
unfoldable pub IsGood : (dos_type version : ℕ) → Pointer × Resource → Type 0
IsGood t v (p, none) = ⊥
IsGood t v (p, some es) = IsNewestFirst es × IsAnswer t v p es

-- The list has an entry of the type that is as new as the version, unless this is 0.
abbrev Reaches : (dos_type version : ℕ) → List FileSysEntry → Type 0
Reaches t v es = (v ≡ 0) ⊎ ((x : FileSysEntry) × In x es × (x.dos_type ≡ t) × (v ≤ x.version))

-- As long as the last step is to come, the pointer may be NULL.
unfoldable pub IsPending : (dos_type version : ℕ) → Pointer × Resource → Type 0
IsPending t v (null, none) = ⊥
IsPending t v (null, some es) = IsNewestFirst es × Reaches t v es
IsPending t v r = IsGood t v r

as_new :
    (t v : ℕ) (es : List FileSysEntry) (e : FileSysEntry)
    → Reaches t v es
    → AllAtMost t e.version es
    → v ≤ e.version
as_new t v es e (inl zero_version) all = omega (arith, zero_version)
as_new t v es e (inr (x, i, same, newer)) all =
    omega (arith, newer, AllAtMost-In t e.version es x all i same)

listed_answer :
    (memory : Memory) (t v : ℕ) (es : List FileSysEntry)
    → IsNewestFirst es
    → Reaches t v es
    → IsGood t v (fshd_process memory none t 0 false (some es))
unfolding fshd_process with_resource scan_entries IsGood IsAnswer
listed_answer memory t v es sorted reaches = elim (Option-cases (first_entry t 0 es)) [
  | inl e ↦ rw (fshd_process, scan_entries, e) (sorted, first_entry-none t 0 es e)
  | inr (x, e) ↦
      let (type_is, _, place, all) = first_entry-some t 0 es x sorted e in
      rw (fshd_process, scan_entries, e)
        (sorted, (type_is, as_new t v es x reaches all, place, all))
]

or_listed-IsGood :
    (memory : Memory) (t v : ℕ) (r : Pointer × Resource)
    → IsPending t v r
    → IsGood t v (or_listed memory t r)
unfolding or_listed IsPending
or_listed-IsGood memory t v (null, none) h = absurd h
or_listed-IsGood memory t v (null, some es) (sorted, reaches) =
    listed_answer memory t v es sorted reaches
or_listed-IsGood memory t v (tail, o) h = h
or_listed-IsGood memory t v (listed e, o) h = h
or_listed-IsGood memory t v (new e, o) h = h
or_listed-IsGood memory t v (freed e, o) h = h

add-IsPending :
    (t v : ℕ) (e : FileSysEntry) (es : List FileSysEntry)
    → e.dos_type ≡ t
    → v ≤ e.version
    → AllBelow t e.version es
    → IsNewestFirst es
    → IsPending t v (fshd_add e (some es))
unfolding fshd_add IsPending IsGood IsAnswer IsNewestFirst AllAtMost
add-IsPending t v e es type_is newer below sorted = elim (Bool-cases (e.seg_list == 0)) [
  | inl bad ↦ rw (fshd_add, bad) (sorted, type_is)
  | inr loaded ↦
      rw (fshd_add, loaded)
        (
          (rw type_is below, sorted),
          (type_is, newer, here es, (λ same. omega arith, below_at_most t e.version es below)),
        )
]

-- The version that is promised: the header's, where memory for an entry can be had.
abbrev pub promised : Memory → ℕ → ℕ
promised memory version = if memory.entry then version else 0

header-IsPending :
    (memory : Memory) (load : ℕ → Option ℕ) (t seg : ℕ) (buf : List ℕ) (es : List FileSysEntry)
    → fhb_dos_type buf ≡ t
    → load (fhb_seg_list_blocks buf) ≡ some seg
    → IsNewestFirst es
    → (r : Pointer × Resource) × (process_header memory load t buf (some es) ≡ done r)
      × IsPending t (promised memory (fhb_version buf)) r
unfolding process_header fshd_process with_resource scan_entries IsPending new_entry
header-IsPending memory load t seg buf es type_is loads sorted =
    let few : promised memory (fhb_version buf) ≤ fhb_version buf = ground arith in
    elim (Option-cases (first_entry t (fhb_version buf) es)) [
      | inl e ↦ elim (Bool-cases memory.entry) [
        | inl free ↦
            rw (process_header, fshd_process, scan_entries, e, free, loads)
              (
                fshd_add (record (new_entry buf) { seg_list = seg }) (some es),
                refl,
                add-IsPending t (fhb_version buf) (record (new_entry buf) { seg_list = seg }) es
                    type_is (omega arith) (first_entry-none t (fhb_version buf) es e) sorted,
              )
        | inr full ↦
            rw (process_header, fshd_process, scan_entries, e, full)
              ((null, some es), refl, (sorted, inl refl))
      ]
      | inr (x, e) ↦
          let (same, newer, place, _) = first_entry-some t (fhb_version buf) es x sorted e in
          rw (process_header, fshd_process, scan_entries, e)
            ((null, some es), refl, (sorted, inr (x, place, same, omega (arith, few, newer))))
    ]

-- A loop that has ended, and its result.
abbrev pub Ended :
    (dos_type version : ℕ)
    → Option (Outcome (Pointer × Resource))
    → (ℕ → ℕ → Pointer × Resource → Type 0)
    → Type 0
Ended t v o P = (r : Pointer × Resource) × (o ≡ some (done r)) × P t v r

loop-IsPending :
    (read : (block id : ℕ) → Outcome (List ℕ)) (memory : Memory) (load : ℕ → Option ℕ)
    (t version n block : ℕ) (es : List FileSysEntry)
    → ((b : ℕ) (buf : List ℕ)
        → read b idname_filesysheader ≡ done buf
        → fhb_dos_type buf ≡ t
        → (seg : ℕ) × (load (fhb_seg_list_blocks buf) ≡ some seg))
    → HeaderChain read t version n block
    → IsNewestFirst es
    → Ended t
        (promised memory version)
        (fshd_loop (suc n) read memory load block t (some es))
        IsPending
unfolding fshd_loop IsPending
loop-IsPending read memory load t _ n _ es loads (ends _) sorted =
    ((null, some es), refl, (sorted, inl (ground arith)))
loop-IsPending read memory load t _ n block es loads (unreadable _ _ more e) sorted =
    rw (fshd_loop, more, e) ((null, some es), refl, (sorted, inl (ground arith)))
loop-IsPending read memory load t _ n block es loads (reached _ _ buf more e type_is) sorted =
    let hit : (fhb_dos_type buf == t) ≡ true = (==_iff (fhb_dos_type buf) t).1 type_is in
    let (seg, loaded) = loads block buf e type_is in
    let (r, same, pending) = header-IsPending memory load t seg buf es type_is loaded sorted in
    rw (fshd_loop, more, e, hit, same) (r, refl, pending)
loop-IsPending read memory load t version _ block es loads (further _ n _ buf more e other chain)
      sorted =
    rw (fshd_loop, more, e, other)
      (loop-IsPending read memory load t version n (fhb_next buf) es loads chain sorted)

-- Where the chain of headers comes to an end or to the type after at most n others, and fsrelocate returns,
-- with a list of segments or with 0, for the blocks of each header of the type that can be read, ParseFSHD
-- returns. It keeps FileSystem.resource, if there is one, so that the newest version of each type comes first. Its
-- answer is the newest entry of the type on the list, which is as new as the header if memory for an entry
-- can be had; or, if the file system did not load, an entry of the type that was freed; or, if the list
-- has no entry of the type, the end of the list. It is never NULL.
pub parse_fshd-IsGood :
    (read : (block id : ℕ) → Outcome (List ℕ)) (memory : Memory) (load : ℕ → Option ℕ)
    (t version n block : ℕ) (es : List FileSysEntry)
    → ((b : ℕ) (buf : List ℕ)
        → read b idname_filesysheader ≡ done buf
        → fhb_dos_type buf ≡ t
        → (seg : ℕ) × (load (fhb_seg_list_blocks buf) ≡ some seg))
    → HeaderChain read t version n block
    → IsNewestFirst es
    → Ended t
        (promised memory version)
        (parse_fshd (suc n) read memory load block t (some es))
        IsGood
unfolding parse_fshd then_listed
parse_fshd-IsGood read memory load t version n block es loads chain sorted =
    let (r, e, pending) = loop-IsPending read memory load t version n block es loads chain sorted in
    rw (parse_fshd, e)
      (or_listed memory t r, refl, or_listed-IsGood memory t (promised memory version) r pending)
