-- ===== src/Sd/Geometry/Total.antt =====
-- The total number of sectors where the READ CAPACITY (10) of the chain works.
use a4091_software.Base.{ℕ, ◌+◌, ◌%◌, ◌^◌, ◌<◌, ◌≡◌, refl, List, ◌++◌, arith, ap, sym, ◌∙◌}
use mathlib.Core.Path.{subst}
use a4091_software.Base.Int.{pos}
use a4091_software.Scsi.{lto4b, btol4}
use a4091_software.Sd.Geometry.{Drive, got_capacity, conv_sectors_to_chs}
use a4091_software.Sd.Geometry.Chs.{IsChs, conv_sectors_to_chs-IsChs}
use a4091_software.Sd.Geometry.Step.{capacity, Chain, Event, replied, done}

done_ok :
    (e : Event) (c : Chain)
    → e.result.error ≡ 0
    → done capacity e c ≡ (record c { drive = got_capacity e.data_in c.drive }, replied (pos 0))
unfolding done
done_ok e c ok = ground arith

bytes4 : (n : ℕ) (rest : List ℕ) → n < 2 ^ 32 → btol4 (lto4b n ++ rest) 0 ≡ n
bytes4 n rest h = omega arith

bytes4_second : (m n : ℕ) → n < 2 ^ 32 → btol4 (lto4b m ++ lto4b n) 4 ≡ n
bytes4_second m n h = omega arith

-- The fields that `got_capacity` sets, from the two numbers in the data.
got_capacity_fields :
    (data_in : List ℕ) (d : Drive) (last len : ℕ)
    → btol4 data_in 0 ≡ last
    → btol4 data_in 4 ≡ len
    → let g = (got_capacity data_in d).geom in
      let chs = conv_sectors_to_chs ((last + 1) % 2 ^ 32) in
      (g.total_sectors ≡ (last + 1) % 2 ^ 32)
      × (g.sector_size ≡ len)
      × ((g.cylinders, g.heads, g.track_sectors) ≡ chs)
unfolding got_capacity
got_capacity_fields data_in d last len p q =
    (omega arith, q, ap (λ (t : ℕ). conv_sectors_to_chs ((t + 1) % 2 ^ 32)) p)

IsChs-of :
    {c h s total total' : ℕ}
    → (c, h, s) ≡ conv_sectors_to_chs total'
    → total' ≡ total
    → (let (c', h', s') = conv_sectors_to_chs total in IsChs total c' h' s')
    → IsChs total c h s
IsChs-of {total} {total'} chs same is =
    let e = chs ∙ ap conv_sectors_to_chs same in
    subst (λ (t : ℕ × ℕ × ℕ). IsChs total t.0 t.1 t.2) (sym e) is

-- The same, of a completed READ CAPACITY.
done-capacity_fields :
    (e : Event) (c : Chain) (last len : ℕ)
    → e.result.error ≡ 0
    → e.data_in ≡ lto4b last ++ lto4b len
    → last < 2 ^ 32
    → len < 2 ^ 32
    → let g = (done capacity e c).0.drive.geom in
      ((done capacity e c).1 ≡ replied (pos 0))
      × (g.total_sectors ≡ (last + 1) % 2 ^ 32)
      × (g.sector_size ≡ len)
      × ((g.cylinders, g.heads, g.track_sectors) ≡ conv_sectors_to_chs ((last + 1) % 2 ^ 32))
done-capacity_fields e c last len ok d l n =
    let fields =
      got_capacity_fields e.data_in c.drive last len
        (ap (λ (t : List ℕ). btol4 t 0) d ∙ bytes4 last (lto4b len) l)
        (ap (λ (t : List ℕ). btol4 t 4) d ∙ bytes4_second last len n) in
    rw (done_ok e c ok) (refl, fields.0, fields.1, fields.2)

-- A disk whose last block is below ffffffff, answering READ CAPACITY (10) with its last block and a
-- 32-bit block size, completes the request at once with 0: the geometry has the disk's number of
-- blocks and its block size, and c * h * s of it is at most the disk and misses less than one
-- cylinder.
pub done-capacity :
    (e : Event) (c : Chain) (last len : ℕ)
    → e.result.error ≡ 0
    → e.data_in ≡ lto4b last ++ lto4b len
    → last < 0xffffffff
    → len < 2 ^ 32
    → let g = (done capacity e c).0.drive.geom in
      ((done capacity e c).1 ≡ replied (pos 0))
      × (g.total_sectors ≡ last + 1)
      × (g.sector_size ≡ len)
      × IsChs (last + 1) g.cylinders g.heads g.track_sectors
done-capacity e c last len ok d l n =
    let (reply, total, size, chs) = done-capacity_fields e c last len ok d (omega arith) n in
    let whole : (last + 1) % 2 ^ 32 ≡ last + 1 = omega arith in
    (
      reply,
      total ∙ whole,
      size,
      IsChs-of chs whole (conv_sectors_to_chs-IsChs (last + 1) (omega arith)),
    )

-- Where the disk has more blocks than READ CAPACITY (10) can report, so that it answers ffffffff
-- and a 32-bit block size,
-- the request is completed with 0 and a geometry of no sectors and no cylinders.
pub done-capacity_large :
    (e : Event) (c : Chain) (len : ℕ)
    → e.result.error ≡ 0
    → e.data_in ≡ lto4b 0xffffffff ++ lto4b len
    → len < 2 ^ 32
    → let g = (done capacity e c).0.drive.geom in
      ((done capacity e c).1 ≡ replied (pos 0)) × (g.total_sectors ≡ 0) × (g.cylinders ≡ 0)
unfolding conv_sectors_to_chs
done-capacity_large e c len ok d n =
    let (reply, total, size, chs) = done-capacity_fields e c 0xffffffff len ok d (omega arith) n in
    (reply, total, ap (λ (t : ℕ × ℕ × ℕ). t.0) chs)
