-- ===== src/Examples/Mounter.antt =====
-- The theorems about mounter.c at concrete blocks.
use a4091_software.Base.{
  ℕ, zero, suc, ◌+◌, ◌*◌, ◌%◌, ◌^◌, ◌≤◌, ◌<◌, ◌≡◌, Bool-cases, inl, inr, refl, true, false, none,
  some, List, [], ◌∷◌, ◌++◌, ◌==◌, if◌then◌else◌, arith, length, take, drop,
}
use a4091_software.Base.Int.{pos, negsuc}
use a4091_software.Mounter.Blocks.{Drive, Outcome, done, long_at, checksum, readblock}
use a4091_software.Mounter.Blocks.Sum.{sum_longs, checksum-sum_longs, checksum_endless}
use a4091_software.Mounter.Blocks.Read.{readblock-done}
use a4091_software.Mounter.Lseg.{Reader, Lseg, lseg_read_longs, lseg_datasize}
use a4091_software.Mounter.Lseg.Stream.{longs_from, Chain, end, link, pending, Holds, holds}
use a4091_software.Mounter.Lseg.Take.{lseg_read_longs-take}
use a4091_software.Mounter.Names.{to_upper, add_one, c_string, is_taken, check_and_fix_dev_name}
use a4091_software.Mounter.Names.Strings.{IsString}
use a4091_software.Mounter.Names.Fresh.{IsNew, check_and_fix_dev_name-fresh}
use a4091_software.Mounter.Scan.{
  Node, Mounts, World, pb_next, idname_partition, scan_rdsk, parse_rdsk,
}
use a4091_software.Mounter.Scan.Distinct.{AllDistinct, HasNames, scan_rdsk-AllDistinct}

-- The longs fffffffe and 2.
abbrev two_longs : List ℕ
two_longs = 0xff ∷ 0xff ∷ 0xff ∷ 0xfe ∷ 0 ∷ 0 ∷ 0 ∷ 2 ∷ []

two_longs_count : long_at two_longs 4 ≡ 2
unfolding long_at
two_longs_count = refl

checksum-sum_longs_example :
    checksum 3 two_longs ≡ some (sum_longs (long_at two_longs 4) two_longs 0 % 2 ^ 32 == 0)
checksum-sum_longs_example =
    checksum-sum_longs 3 two_longs (omega (arith, two_longs_count)) (omega (arith, two_longs_count))

-- A block that claims 16384 longs.
abbrev too_many : List ℕ
too_many = 0 ∷ 0 ∷ 0 ∷ 0 ∷ 0 ∷ 0 ∷ 0x40 ∷ 0 ∷ []

too_many_count : long_at too_many 4 ≡ 16384
unfolding long_at
too_many_count = refl

checksum_endless_example : checksum 100_000 too_many ≡ none
checksum_endless_example =
    checksum_endless 100_000 too_many (omega (arith, too_many_count))
      (omega (arith, too_many_count))

-- "PART", three longs, and the checksum that makes them 0.
abbrev part_block : List ℕ
part_block = 0x50 ∷ 0x41 ∷ 0x52 ∷ 0x54 ∷ 0 ∷ 0 ∷ 0 ∷ 3 ∷ 0xaf ∷ 0xbe ∷ 0xad ∷ 0xa9 ∷ []

-- Ready at the second attempt.
abbrev slow_drive : Drive
slow_drive offset len attempt = if attempt == 0 then (pos 53, []) else (pos 0, part_block)

part_block_read : readblock slow_drive false 512 7 idname_partition ≡ done part_block
unfolding readblock long_at
part_block_read = refl

part_block_count : long_at part_block 4 ≡ 3
unfolding long_at
part_block_count = refl

readblock-done_example :
    ((k : ℕ) × (k < (if false then 15 else 3))
      × (slow_drive (7 * 2 ^ 9 % 2 ^ 32) 512 k ≡ (pos 0, part_block)))
    × (long_at part_block 0 ≡ idname_partition)
    × (long_at part_block 4 < 16384)
    × (sum_longs (long_at part_block 4) part_block 0 % 2 ^ 32 ≡ 0)
readblock-done_example =
    readblock-done slow_drive false 512 7 idname_partition {buf = part_block} (omega arith)
      (omega arith) (omega (arith, part_block_count)) part_block_read

-- An LSEG block that is the last of its chain; what is not written is 0.
abbrev lseg_block : List ℕ
lseg_block =
    0 ∷ 0 ∷ 0 ∷ 0 ∷ 0 ∷ 0 ∷ 0 ∷ 0 ∷ 0 ∷ 0 ∷ 0 ∷ 0 ∷ 0 ∷ 0 ∷ 0 ∷ 0 ∷ 0xff ∷ 0xff ∷ 0xff ∷ 0xff ∷ 0
    ∷ 0 ∷ 3 ∷ 0xf3 ∷ []

abbrev lseg_reader : Reader
lseg_reader block = done lseg_block

abbrev at_start : Lseg
at_start = record { block = 5; longs = 0; offset = 0; buf = []; wordbuf = 0; hasword = false }

abbrev stream : List ℕ
stream = longs_from lseg_datasize lseg_block 20 ++ []

last_block : long_at lseg_block 16 ≡ 0xffffffff
unfolding long_at
last_block = refl

stream_chain : Chain lseg_reader 5 stream
stream_chain = link 5 lseg_block [] (omega arith) refl (end (long_at lseg_block 16) last_block)

stream-Holds : Holds lseg_reader at_start stream
unfolding pending longs_from
stream-Holds = holds stream stream stream_chain refl

stream_room : 2 ≤ length stream
unfolding longs_from
stream_room = omega arith

lseg_read_longs-take_example :
    (t : Lseg) × (lseg_read_longs lseg_reader 2 at_start ≡ some (done (take 2 stream), t))
    × Holds lseg_reader t (drop 2 stream)
lseg_read_longs-take_example =
    lseg_read_longs-take lseg_reader 2 at_start stream stream-Holds stream_room

abbrev dh0 : List ℕ
dh0 = b'D' ∷ b'H' ∷ b'0' ∷ []

abbrev dh0_1 : List ℕ
dh0_1 = b'd' ∷ b'h' ∷ b'0' ∷ b'.' ∷ b'1' ∷ []

check_and_fix_dev_name-fresh_example :
    (r : List ℕ) × (check_and_fix_dev_name (length (dh0 ∷ dh0_1 ∷ []) + 1) (dh0 ∷ dh0_1 ∷ []) dh0
      ≡ some r)
    × IsNew r (dh0 ∷ dh0_1 ∷ [])
check_and_fix_dev_name-fresh_example =
    check_and_fix_dev_name-fresh (dh0 ∷ dh0_1 ∷ []) dh0 (omega arith)

fixed_twice : check_and_fix_dev_name 3 (dh0 ∷ dh0_1 ∷ []) dh0 ≡ some (dh0 ++ b'.' ∷ b'2' ∷ [])
unfolding check_and_fix_dev_name is_taken add_one to_upper
fixed_twice = refl

abbrev zeros : ℕ → List ℕ → List ℕ
zeros zero rest = rest
zeros (suc n) rest = 0 ∷ zeros n rest

-- An RDB whose partition list starts at block 1.
abbrev rdb : List ℕ
rdb = 0x52 ∷ 0x44 ∷ 0x53 ∷ 0x4b ∷ zeros 27 (1 ∷ [])

-- A partition "DH0", with the block that follows.
abbrev dh0_block : ℕ → List ℕ
dh0_block next = zeros 16 (next ∷ next ∷ next ∷ next ∷ zeros 16 (3 ∷ dh0))

abbrev blocks : ℕ → ℕ → Outcome (List ℕ)
blocks block id =
    if block == 0
    then done rdb
    else if block == 1
    then done (zeros 16 (0 ∷ 0 ∷ 0 ∷ 2 ∷ zeros 16 (3 ∷ dh0)))
    else done (dh0_block 0xff)

abbrev pub world : World
world = record { read = blocks; memory = true; make_dos_node = λ buf. true }

abbrev no_mounts : Mounts
no_mounts = record {
  nodes = [];
  ret = 0;
  was_last_dev = false;
  was_last_lun = false;
  dos_running = false;
}

abbrev node : List ℕ → Node
node name = record { name = name; boot_pri = negsuc 127; bootable = false }

abbrev pub two_mounts : Mounts
two_mounts = record no_mounts { nodes = node (dh0 ++ b'.' ∷ b'1' ∷ []) ∷ node dh0 ∷ []; ret = 2 }

pub world-HasNames : HasNames world
unfolding HasNames IsString
world-HasNames block buf e = elim (Bool-cases (block == 0)) [
  | inl first ↦ let same : rdb ≡ buf = cc (rw first at e) in rw (← same) (tt, omega arith)
  | inr later ↦ elim (Bool-cases (block == 1)) [
    | inl second ↦
        let same : zeros 16 (0 ∷ 0 ∷ 0 ∷ 2 ∷ zeros 16 (3 ∷ dh0)) ≡ buf =
          cc (rw (later, second) at e) in
        rw (← same) ((omega arith, (omega arith, (omega arith, tt))), omega arith)
    | inr third ↦
        let same : dh0_block 0xff ≡ buf = cc (rw (later, third) at e) in
        rw (← same) ((omega arith, (omega arith, (omega arith, tt))), omega arith)
  ]
]

two_mounted : scan_rdsk 5 world false no_mounts ≡ some (done (two_mounts, true))
unfolding scan_rdsk parse_rdsk check_and_fix_dev_name is_taken add_one c_string long_at to_upper
two_mounted = refl

scan_rdsk-AllDistinct_example : AllDistinct two_mounts.nodes
scan_rdsk-AllDistinct_example =
    scan_rdsk-AllDistinct 5 world false no_mounts {after = two_mounts} {was_found = true}
      world-HasNames (unfold AllDistinct in tt) two_mounted (omega arith)

-- The same partition block, naming itself.
abbrev loop_world : World
loop_world = record world {
  read = λ block id. done (zeros 16 (0 ∷ 0 ∷ 0 ∷ 1 ∷ zeros 16 (3 ∷ dh0)));
}

rdb_list : long_at rdb 28 ≡ 1
unfolding long_at
rdb_list = refl

names_itself : pb_next (zeros 16 (0 ∷ 0 ∷ 0 ∷ 1 ∷ zeros 16 (3 ∷ dh0))) ≡ long_at rdb 28
unfolding long_at
names_itself = refl
