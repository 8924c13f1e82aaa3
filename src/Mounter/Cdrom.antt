-- ===== src/Mounter/Cdrom.antt =====
-- The CD-ROMs of mounter.c: `CheckPVD` and `ScanCDROM`.
pub mod Cdtv
use a4091_software.Base.{
  ℕ, zero, suc, ◌+◌, ◌*◌, ◌%◌, ◌^◌, Bool, true, false, not, ◌&&◌, ◌||◌, List, [], ◌∷◌, ◌==◌, ltb,
  if◌then◌else◌, length, drop, get_or,
}
use a4091_software.Base.Int.{ℤ, pos, negsuc, is_zero}
use a4091_software.Mounter.Scan.{Node, Mounts}

-- A disc: the error, io_Actual and the buffer that a read of 2048 bytes at an offset leaves.
abbrev pub Disc : Type 0
Disc = (offset retry : ℕ) → ℤ × ℕ × List ℕ

-- strncmp as a truth value: whether the first n bytes differ, up to the end of the strings. A byte
-- behind the end of a list is 0.
strings_differ : ℕ → List ℕ → List ℕ → Bool
strings_differ zero xs ys = false
strings_differ (suc n) [] ys = not (get_or ys 0 0 == 0)
strings_differ (suc n) (x ∷ xs) [] = not (x == 0)
strings_differ (suc n) (x ∷ xs) (y ∷ ys) =
    let rest = strings_differ n xs ys in if x == y then (if x == 0 then false else rest) else true

-- "CD001", "CDTV" and "AMIGA BOOT".
abbrev pub iso_id : List ℕ
iso_id = b'C' ∷ b'D' ∷ b'0' ∷ b'0' ∷ b'1' ∷ []

abbrev pub sys_id_1 : List ℕ
sys_id_1 = b'C' ∷ b'D' ∷ b'T' ∷ b'V' ∷ []

abbrev pub sys_id_2 : List ℕ
sys_id_2 = b'A' ∷ b'M' ∷ b'I' ∷ b'G' ∷ b'A' ∷ b' ' ∷ b'B' ∷ b'O' ∷ b'O' ∷ b'T' ∷ []

-- The reads of a sector: up to three, until one has no error. What the last one leaves.
tries : (left retry : ℕ) → (ℕ → ℤ × ℕ × List ℕ) → ℕ × List ℕ
tries zero retry io = let (err, actual, buf) = io retry in (actual, buf)
tries (suc left) retry io =
    let again = tries left (retry + 1) io in
    let (err, actual, buf) = io retry in if is_zero err then (actual, buf) else again

-- io_Actual and the buffer of sector i + 16.
unfoldable pub sector : Disc → ℕ → ℕ × List ℕ
unfolding tries
sector disc i = tries 2 0 (disc ((i + 16) * 2 ^ 11))

-- The primary volume descriptor.
unfoldable pub is_pvd : List ℕ → Bool
unfolding strings_differ
is_pvd buf =
    not (strings_differ (length iso_id) iso_id (drop 1 buf))
    && (get_or buf 0 0 == 1 && get_or buf 6 0 == 1)

-- The second comparison has the length `strlen(sys_id_2) == 0`.
unfoldable pub is_amiga : List ℕ → Bool
unfolding strings_differ
is_amiga buf =
    not (strings_differ (length sys_id_1) sys_id_1 (drop 8 buf))
    || strings_differ (if length sys_id_2 == 0 then 1 else 0) sys_id_2 (drop 8 buf)

unfoldable pub pvd_loop : Disc → (left i : ℕ) → Bool
unfolding sector is_pvd is_amiga
pvd_loop disc zero i = false
pvd_loop disc (suc left) i =
    let rest = pvd_loop disc left (i + 1) in
    let (actual, buf) = sector disc i in
    if ltb actual 2048 then false else if is_pvd buf then is_amiga buf else rest

-- `memory` says whether the buffer was allocated, `change` is the error and io_Actual of
-- TD_CHANGESTATE.
unfoldable pub check_pvd : (memory : Bool) → (change : ℤ × ℕ) → Disc → Bool
unfolding pvd_loop
check_pvd memory change disc = memory && ((is_zero change.0 && change.1 == 0) && pvd_loop disc 32 0)

-- ScanCDROM: the result, the mount list, and `cnt`, the number of CD-ROMs before. `file_system` says
-- whether there is a file system for CD-ROMs, `made` whether MakeDosNode made a node.
unfoldable pub scan_cdrom : (file_system pvd made : Bool) → ℕ → Mounts → ℤ × Mounts × ℕ
scan_cdrom file_system pvd made cnt md =
    if not (file_system && made) then (negsuc 0, md, cnt) else (
      pos 1,
      record md {
        nodes =
            record {
              name = b'C' ∷ b'D' ∷ ((b'0' + cnt) % 256) ∷ [];
              boot_pri = if pvd then pos 2 else negsuc 0;
              bootable = true;
            }
            ∷ md.nodes;
      },
      cnt + 1,
    )
