-- ===== src/Sd/ReadWrite/Decode.antt =====
-- What a target reads from the CDBs of `sd_readwrite`, by the SCSI block commands standard: in
-- READ(6) and WRITE(6) a transfer length of 0 stands for 256 blocks.
use a4091_software.Base.{
  ℕ, ◌+◌, ◌*◌, ◌/◌, ◌%◌, ◌^◌, ◌<◌, ◌≤◌, ◌≡◌, ◌≢◌, ◌⊎◌, refl, Bool, true, false, Option, none, some,
  List, [], ◌∷◌, ◌==◌, if◌then◌else◌, arith,
}
use a4091_software.Base.Bits.{shr}
use a4091_software.Scsi.{Xfer, Issued, Scsipi, sd_complete}
use a4091_software.Periph.{Periph}
use a4091_software.Sd.ReadWrite.{rw_cdb, sd_readwrite}

-- What a command asks for: read or write, the first block, the number of blocks.
abbrev pub Transfer : Type 0
Transfer = Bool × ℕ × ℕ

abbrev pub opcode6 : ℕ → Option Bool
opcode6 op = if op == 0x08 then some true else if op == 0x0a then some false else none

abbrev pub opcode10 : ℕ → Option Bool
opcode10 op = if op == 0x28 then some true else if op == 0x2a then some false else none

abbrev pub opcode16 : ℕ → Option Bool
opcode16 op = if op == 0x88 then some true else if op == 0x8a then some false else none

abbrev pub with_opcode : Option Bool → ℕ → ℕ → Option Transfer
with_opcode none lba n = none
with_opcode (some read) lba n = some (read, lba, n)

abbrev pub be3 : ℕ → ℕ → ℕ → ℕ
be3 a b c = a * 2 ^ 16 + b * 2 ^ 8 + c

abbrev pub be4 : ℕ → ℕ → ℕ → ℕ → ℕ
be4 a b c d = a * 2 ^ 24 + b * 2 ^ 16 + c * 2 ^ 8 + d

pub decode_rw : List ℕ → Option Transfer
decode_rw (op ∷ a ∷ b ∷ c ∷ n ∷ ctl ∷ []) =
    with_opcode (opcode6 op) (be3 (a % 32) b c) (if n == 0 then 256 else n)
decode_rw (op ∷ f ∷ a ∷ b ∷ c ∷ d ∷ g ∷ m ∷ n ∷ ctl ∷ []) =
    with_opcode (opcode10 op) (be4 a b c d) (m * 2 ^ 8 + n)
decode_rw (op ∷ f ∷ a ∷ b ∷ c ∷ d ∷ e ∷ g ∷ h ∷ i ∷ k ∷ l ∷ m ∷ n ∷ p ∷ ctl ∷ []) =
    with_opcode (opcode16 op) (be4 a b c d * 2 ^ 32 + be4 e g h i) (be4 k l m n)
decode_rw _ = none

rw_cdb-decode :
    (read : Bool) (blkno nblks : ℕ)
    → blkno < 2 ^ 64
    → nblks < 2 ^ 32
    → nblks ≢ 0
    → (nblks < 2 ^ 16) ⊎ (2 ^ 32 ≤ blkno)
    → decode_rw (rw_cdb read blkno nblks) ≡ some (read, blkno, nblks)
unfolding rw_cdb decode_rw
rw_cdb-decode true blkno nblks b n z h = ground arith
rw_cdb-decode false blkno nblks b n z h = ground arith

rw_cdb_short :
    (read : Bool) (blkno nblks : ℕ)
    → blkno < 2 ^ 21
    → nblks ≡ 0
    → decode_rw (rw_cdb read blkno nblks) ≡ some (read, blkno, 256)
unfolding rw_cdb decode_rw
rw_cdb_short true blkno nblks b z = ground arith
rw_cdb_short false blkno nblks b z = ground arith

rw_cdb_long :
    (read : Bool) (blkno nblks : ℕ)
    → blkno < 2 ^ 32
    → 2 ^ 16 ≤ nblks
    → decode_rw (rw_cdb read blkno nblks) ≡ some (read, blkno, nblks % 2 ^ 16)
unfolding rw_cdb decode_rw
rw_cdb_long true blkno nblks b z = ground arith
rw_cdb_long false blkno nblks b z = ground arith

div-le : (n d : ℕ) → n / d ≤ n
div-le n d = ground arith

shr-lt : (n k : ℕ) {m : ℕ} → n < m → shr n k < m
shr-lt n k h = omega (arith, div-le n (2 ^ k))

-- The transfer that a call hands over asks for `t`, and belongs to the request `ior`.
abbrev pub Asks : Issued → Option ℕ → Transfer → Type 0
Asks r ior t =
    (xs : Xfer) × (r.sent ≡ some xs)
    × (decode_rw xs.cdb ≡ some t)
    × (xs.ior ≡ ior)
    × (xs.done ≡ sd_complete)

module _ (s : Scsipi) (periph : Periph) (blkno : ℕ) (read : Bool) (buf buflen : ℕ) (ior : Option ℕ)
    (found : s.make_xs ≡ true) where
  -- Whatever CDB size is chosen, the target reads from it the direction, the block number and the
  -- number of whole blocks in the buffer: for a 64-bit block number, a 32-bit length of at least
  -- one block, and either fewer than 65536 blocks or a block number above 32 bits, if a transfer
  -- is available. The transfer completes the caller's request by `sd_complete`.
  pub sd_readwrite-decode :
      blkno < 2 ^ 64
      → buflen < 2 ^ 32
      → shr buflen periph.blkshift ≢ 0
      → (shr buflen periph.blkshift < 2 ^ 16) ⊎ (2 ^ 32 ≤ blkno)
      → Asks
          (sd_readwrite s periph blkno read buf buflen ior)
          ior
          (read, blkno, shr buflen periph.blkshift)
  unfolding sd_readwrite
  sd_readwrite-decode b n z h = rw found (
    _,
    refl,
    rw_cdb-decode read blkno (shr buflen periph.blkshift) b (shr-lt buflen periph.blkshift n) z h,
    refl,
    refl,
  )

  -- A transfer of less than one block, at a block number of 21 bits, asks the target for 256
  -- blocks: READ(6) and WRITE(6) give the count 0 that meaning.
  pub sd_readwrite-short :
      blkno < 2 ^ 21
      → shr buflen periph.blkshift ≡ 0
      → Asks (sd_readwrite s periph blkno read buf buflen ior) ior (read, blkno, 256)
  unfolding sd_readwrite
  sd_readwrite-short b z = rw found (_, refl, rw_cdb_short read blkno _ b z, refl, refl)

  -- Of 65536 blocks or more, at a block number of 32 bits, only the low 16 bits of the count
  -- reach the target.
  pub sd_readwrite-long :
      blkno < 2 ^ 32
      → 2 ^ 16 ≤ shr buflen periph.blkshift
      → Asks
          (sd_readwrite s periph blkno read buf buflen ior)
          ior
          (read, blkno, shr buflen periph.blkshift % 2 ^ 16)
  unfolding sd_readwrite
  sd_readwrite-long b z = rw found (_, refl, rw_cdb_long read blkno _ b z, refl, refl)
