-- ===== src/Mounter/FileSystems.antt =====
-- The file systems of mounter.c: `FSHDProcess`, `FSHDAdd`, `ParseFSHD` and `find_filesystem`, which keep
-- FileSystem.resource. What `fsrelocate` makes of the hunks of a file system is an argument, `load`: the
-- list of segments, 0 where there is none, or nothing where it never returns; its loop is in Relocate.
pub mod Sorted
pub mod Newest
pub mod Patches
use a4091_software.Base.{
  ℕ, zero, suc, ◌+◌, ◌/◌, ◌%◌, Bool, true, false, not, ◌&&◌, ◌||◌, Option, none, some, List, [],
  ◌∷◌, ◌==◌, leb, if◌then◌else◌, get_or,
}
use a4091_software.Mounter.Blocks.{Outcome, done, failed, hung, long_at}

-- `struct FileSysEntry`: fse_DosType, fse_Version, fse_PatchFlags, the longs from fse_Type on, and
-- fse_SegList, which is among these and stands alone here.
pub record FileSysEntry : Type 0 where
  pub dos_type : ℕ
  pub version : ℕ
  pub patch_flags : ℕ
  pub patches : List ℕ
  pub seg_list : ℕ

-- FileSystem.resource: none where there is no such resource, else its list of entries.
abbrev pub Resource : Type 0
Resource = Option (List FileSysEntry)

-- A pointer to an entry: NULL, an entry of the list, a new one, one that was freed, or the end of the
-- list, `lh_Tail`, which is no entry.
pub data Pointer : Type 0 where
  null tail : Pointer
  listed new freed : FileSysEntry → Pointer

-- `struct FileSysHeaderBlock`: fhb_Next, fhb_DosType, fhb_Version, fhb_PatchFlags, the longs from
-- fhb_Type on, and fhb_SegListBlocks, which is the eighth of them.
abbrev pub fhb_next : List ℕ → ℕ
fhb_next buf = long_at buf 16

abbrev pub fhb_dos_type : List ℕ → ℕ
fhb_dos_type buf = long_at buf 32

abbrev pub fhb_version : List ℕ → ℕ
fhb_version buf = long_at buf 36

abbrev pub fhb_patch_flags : List ℕ → ℕ
fhb_patch_flags buf = long_at buf 40

abbrev pub fhb_seg_list_blocks : List ℕ → ℕ
fhb_seg_list_blocks buf = long_at buf 72

-- IDNAME_FILESYSHEADER, "FSHD".
abbrev pub idname_filesysheader : ℕ
idname_filesysheader = 0x46534844

-- As many longs are copied as the flags have bits, from the lowest to the highest that is set.
unfoldable pub copy_patches : ℕ → (flags offset : ℕ) → List ℕ → List ℕ
copy_patches zero flags offset buf = []
copy_patches (suc fuel) flags offset buf =
    let rest = copy_patches fuel (flags / 2) (offset + 4) buf in
    if flags == 0 then [] else long_at buf offset ∷ rest

-- The longs of an entry from fse_Type on, of which the eighth is fse_SegList.
unfoldable pub entry_long : FileSysEntry → ℕ → ℕ
entry_long e i = if i == 7 then e.seg_list else get_or e.patches i 0

-- `ProcessPatchFlags`: a long of a device node becomes that of the entry where its bit is set.
unfoldable pub process_patch_flags : ℕ → (patch_flags place : ℕ) → (src : ℕ → ℕ) → List ℕ → List ℕ
process_patch_flags zero flags place src dst = dst
process_patch_flags (suc fuel) flags place src [] = []
process_patch_flags (suc fuel) flags place src (d ∷ ds) =
    let rest = process_patch_flags fuel (flags / 2) (place + 1) src ds in
    if flags == 0 then d ∷ ds else (if flags % 2 == 0 then d else src place) ∷ rest

-- The first entry of a type that is as new as a version, or newer.
unfoldable pub first_entry : (dos_type version : ℕ) → List FileSysEntry → Option FileSysEntry
first_entry dos_type version [] = none
first_entry dos_type version (e ∷ es) =
    if e.dos_type == dos_type && leb version e.version
    then some e
    else first_entry dos_type version es

-- A new entry of a header, not loaded yet. 32 bits have 32 rounds at most.
unfoldable pub new_entry : List ℕ → FileSysEntry
new_entry buf = record {
  dos_type = fhb_dos_type buf;
  version = fhb_version buf;
  patch_flags = fhb_patch_flags buf;
  patches = copy_patches 33 (fhb_patch_flags buf) 44 buf;
  seg_list = 0;
}

-- Whether memory for the resource and for an entry can be had.
pub record Memory : Type 0 where
  pub resource : Bool
  pub entry : Bool

-- The resource is made where there is none.
unfoldable pub with_resource : Memory → Resource → Resource
with_resource memory (some es) = some es
with_resource memory none = if memory.resource then some [] else none

unfoldable pub scan_entries :
    Memory
    → Option (List ℕ)
    → (dos_type version : ℕ) → (new_only : Bool) → List FileSysEntry
    → Pointer
scan_entries memory fshb dos_type version new_only es = elim (first_entry dos_type version es) [
  | some e ↦ if new_only then null else listed e
  | none ↦ elim fshb [
    | none ↦ tail
    | some buf ↦ if new_only then (if memory.entry then new (new_entry buf) else null) else tail
  ]
]

unfoldable pub fshd_process :
    Memory
    → Option (List ℕ)
    → (dos_type version : ℕ) → (new_only : Bool) → Resource
    → Pointer × Resource
fshd_process memory fshb dos_type version new_only resource = elim (with_resource memory resource) [
  | none ↦ (null, none)
  | some es ↦ (scan_entries memory fshb dos_type version new_only es, some es)
]

-- A file system that was loaded is added at the head; else, or without a resource, it is freed.
unfoldable pub fshd_add : FileSysEntry → Resource → Pointer × Resource
fshd_add e none = (freed e, none)
fshd_add e (some es) = if e.seg_list == 0 then (freed e, some es) else (listed e, some (e ∷ es))

-- The header of the type that was looked for. The pointer stays what it is where FSHDAdd frees the entry.
unfoldable pub process_header :
    Memory
    → (load : ℕ → Option ℕ) → (dos_type : ℕ) → List ℕ
    → Resource
    → Outcome (Pointer × Resource)
process_header memory load dos_type buf resource =
    let (pointer, kept) = fshd_process memory (some buf) dos_type (fhb_version buf) true resource in
    elim pointer [
      | new e ↦ elim (load (fhb_seg_list_blocks buf)) [
        | none ↦ hung
        | some seg ↦ done (fshd_add (record e { seg_list = seg }) kept)
      ]
      | null ↦ done (null, kept)
      | tail ↦ done (tail, kept)
      | listed e ↦ done (listed e, kept)
      | freed e ↦ done (freed e, kept)
    ]

-- The last step: where nothing new came of it, the first entry of the type.
unfoldable pub or_listed : Memory → (dos_type : ℕ) → Pointer × Resource → Pointer × Resource
or_listed memory dos_type (null, resource) = fshd_process memory none dos_type 0 false resource
or_listed memory dos_type found = found

-- The loop over the headers; `none` where the fuel runs out, `read` is `readblock`.
unfoldable pub fshd_loop :
    ℕ
    → (read : (block id : ℕ) → Outcome (List ℕ)) → Memory
    → (load : ℕ → Option ℕ) → (block dos_type : ℕ) → Resource
    → Option (Outcome (Pointer × Resource))
fshd_loop zero read memory load block dos_type resource = none
fshd_loop (suc fuel) read memory load block dos_type resource =
    let more = fshd_loop fuel read memory load in
    if block == 0xffffffff
    then some (done (null, resource))
    else (elim (read block idname_filesysheader) [
      | failed ↦ some (done (null, resource))
      | hung ↦ some hung
      | done buf ↦
          if fhb_dos_type buf == dos_type
          then some (process_header memory load dos_type buf resource)
          else more (fhb_next buf) dos_type resource
    ])

unfoldable pub then_listed :
    Memory
    → (dos_type : ℕ) → Option (Outcome (Pointer × Resource))
    → Option (Outcome (Pointer × Resource))
then_listed memory dos_type (some (done r)) = some (done (or_listed memory dos_type r))
then_listed memory dos_type o = o

unfoldable pub parse_fshd :
    ℕ
    → (read : (block id : ℕ) → Outcome (List ℕ)) → Memory
    → (load : ℕ → Option ℕ) → (block dos_type : ℕ) → Resource
    → Option (Outcome (Pointer × Resource))
parse_fshd fuel read memory load block dos_type resource =
    then_listed memory dos_type (fshd_loop fuel read memory load block dos_type resource)

-- The first entry of either type; a type of 0 is none.
unfoldable pub find_filesystem : (id1 id2 : ℕ) → List FileSysEntry → Option FileSysEntry
find_filesystem id1 id2 [] = none
find_filesystem id1 id2 (e ∷ es) =
    if (not (id1 == 0) && e.dos_type == id1) || (not (id2 == 0) && e.dos_type == id2)
    then some e
    else find_filesystem id1 id2 es
