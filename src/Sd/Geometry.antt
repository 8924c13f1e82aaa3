-- ===== src/Sd/Geometry.antt =====
-- TD_GETGEOMETRY in sd.c: `sd_getgeometry`, the chain of commands whose completions are the
-- `geom_done_…` functions, and `conv_sectors_to_chs`. Fields are 32-bit.
pub mod Chs
pub mod Step
pub mod Chain
pub mod Total
use a4091_software.Base.{
  ℕ, zero, suc, ◌+◌, ◌*◌, ◌/◌, ◌%◌, ◌^◌, Bool, true, false, not, ◌&&◌, ◌||◌, Option, none, some,
  List, ◌==◌, ltb, leb, if◌then◌else◌, bit_and,
}
use a4091_software.Scsi.{u8_at, btol2, btol3, btol4}
use a4091_software.Sd.BlockSize.{is_valid_blksize, calc_blkshift}

-- `struct DriveGeometry`; `removable` is DGF_REMOVABLE of dg_Flags.
pub record Geom : Type 0 where
  pub sector_size : ℕ
  pub total_sectors : ℕ
  pub cylinders : ℕ
  pub cyl_sectors : ℕ
  pub heads : ℕ
  pub track_sectors : ℕ
  pub device_type : ℕ
  pub removable : Bool

-- What the completions change: the caller's geometry and periph_blkshift.
pub record Drive : Type 0 where
  pub geom : Geom
  pub blkshift : ℕ

abbrev u32 : ℕ → ℕ
u32 n = n % 2 ^ 32

-- The loop of `conv_sectors_to_chs`. It ends when s reaches 32, so it has 5 rounds at most.
chs_loop : ℕ → ℕ → ℕ → ℕ → ℕ × ℕ × ℕ
chs_loop zero c h s = (c, h, s)
chs_loop (suc rounds) c h s =
    let rest = chs_loop rounds (c / 4) (u32 (h * 2)) (u32 (s * 2)) in
    if leb 10000 c && ltb s 32 then rest else (c, h, s)

unfoldable pub conv_sectors_to_chs : ℕ → ℕ × ℕ × ℕ
unfolding chs_loop
conv_sectors_to_chs total = chs_loop 6 (total / 2) 2 1

-- `calc_blkshift` of a valid size always has a result.
blkshift_of : ℕ → ℕ
blkshift_of blksize = elim (calc_blkshift blksize) [ none ↦ 0 | some shift ↦ shift ]

with_blksize : Drive → ℕ → Drive
unfolding blkshift_of
with_blksize d blksize =
    if is_valid_blksize blksize
    then record d {
      geom = record (d.geom) { sector_size = blksize };
      blkshift = blkshift_of blksize;
    }
    else d

-- `geom_done_get_capacity` after a success: the 8 bytes came over dg_SectorSize and
-- dg_TotalSectors, and are put where they belong.
unfoldable pub got_capacity : List ℕ → Drive → Drive
unfolding conv_sectors_to_chs blkshift_of
got_capacity data_in d =
    let blksize = btol4 data_in 4 in
    let total = u32 (btol4 data_in 0 + 1) in
    let (c, h, s) = conv_sectors_to_chs total in
    record d {
      geom = record (d.geom) {
        sector_size = blksize;
        total_sectors = total;
        cylinders = c;
        heads = h;
        track_sectors = s;
        cyl_sectors = u32 (h * s);
      };
      blkshift = if is_valid_blksize blksize then blkshift_of blksize else d.blkshift;
    }

-- `geom_done_mode_page_3`: the page starts at byte 4, after the header.
unfoldable pub got_page_3 : List ℕ → Drive → Drive
unfolding with_blksize
got_page_3 data_in d =
    let e = with_blksize d (btol2 data_in 16) in
    record e {
      geom = record (e.geom) {
        removable = e.geom.removable || not (bit_and (u8_at data_in 24) 0x20 == 0);
        track_sectors = btol2 data_in 14;
      };
    }

-- The total is computed only where no capacity is known.
fill_total : Geom → Geom
fill_total g =
    if g.total_sectors == 0
    then record g { total_sectors = u32 (g.track_sectors * g.heads * g.cylinders) }
    else g

abbrev set_heads : ℕ → Geom → Geom
set_heads nheads g =
    if nheads == 0
    then g
    else record g { heads = nheads; cyl_sectors = u32 (nheads * g.track_sectors) }

abbrev set_cylinders : ℕ → Geom → Geom
set_cylinders ncyl g = if ncyl == 0 then g else record g { cylinders = ncyl }

abbrev set_track_sectors : ℕ → Geom → Geom
set_track_sectors nspt g = if nspt == 0 then g else record g { track_sectors = nspt }

unfoldable pub got_page_4 : List ℕ → Drive → Drive
unfolding fill_total
got_page_4 data_in d = record d {
  geom = fill_total (set_cylinders (btol3 data_in 6) (set_heads (u8_at data_in 9) d.geom));
}

unfoldable pub got_page_5 : List ℕ → Drive → Drive
unfolding with_blksize fill_total
got_page_5 data_in d =
    let e = with_blksize d (btol2 data_in 10) in
    record e {
      geom = fill_total (
          set_heads (u8_at data_in 8)
            (set_cylinders (btol2 data_in 12) (set_track_sectors (u8_at data_in 9) e.geom)));
    }
