-- ===== src/Cmd/Dispatch/Blocks.antt =====
-- The block that a request's byte offset names, down to the command that the target reads.
use native.Mathlib.Nat.{
  div-lt_iff_lt-mul, mul-add-div_right, one-le-pow, mod-eq_of_lt, zero-div, div-le_self,
}
use a4091_software.Base.{
  ℕ, ◌+◌, ◌*◌, ◌-◌, ◌/◌, ◌^◌, ◌<◌, ◌≤◌, ◌≡◌, ◌≢◌, inl, refl, sym, ap, ◌∙◌, Bool, true, false,
  Option, none, some, arith, ◌==◌, ==_iff, bit_or,
}
use a4091_software.Base.Bits.{bit_or_disjoint, shr}
use a4091_software.Base.Table.{every_below, every_below_lem}
use a4091_software.Base.Int.{pos}
use a4091_software.Periph.{Periph}
use a4091_software.Sd.ReadWrite.{sd_readwrite}
use a4091_software.Sd.ReadWrite.Decode.{Asks, sd_readwrite-decode}
use a4091_software.Cmd.Request.{
  Command, td_read64, td_write64, td_format64, nscmd_td_read64, nscmd_td_write64, nscmd_td_format64,
  IoReq, blkno64, set_error,
}
use a4091_software.Cmd.Dispatch.{extended, switch, cmd_do_iorequest}
use a4091_software.Cmd.Dispatch.Cases.{Env, Handled, do_rw64}

pow-table : every_below 33 (λ s. 2 ^ (32 - s) * 2 ^ s == 2 ^ 32) ≡ true
unfolding every_below
pow-table = refl

pow-split : (s : ℕ) → s ≤ 32 → 2 ^ (32 - s) * 2 ^ s ≡ 2 ^ 32
pow-split s h = (==_iff _ _).0 (every_below_lem 33 _ s pow-table (omega arith))

-- A factor is at most the product.
le-mul : (a b : ℕ) → 1 ≤ b → a ≤ a * b
le-mul a b h = grind arith

mul-lt : (a b m : ℕ) → a < m → b ≤ m → 0 < m → a * b < m * m
mul-lt a b m h k z = grind arith

-- For a block size of at most 2 ^ 32, the block number of the 64-bit commands is the 64-bit byte
-- offset, io_Actual its high half and io_Offset its low half, divided by the block size.
pub blkno64-div :
    (actual offset s : ℕ)
    → actual < 2 ^ 32
    → offset < 2 ^ 32
    → s ≤ 32
    → blkno64 actual offset s ≡ (actual * 2 ^ 32 + offset) / 2 ^ s
unfolding blkno64
blkno64-div actual offset s ha ho hs =
    let split = pow-split s hs in
    let size : 0 < 2 ^ s = one-le-pow s 2 (omega arith) in
    let high : 2 ^ (32 - s) ≤ 2 ^ 32 = omega (arith, le-mul (2 ^ (32 - s)) (2 ^ s) size) in
    let fits : actual * 2 ^ (32 - s) < 2 ^ 64 =
      mul-lt actual (2 ^ (32 - s)) (2 ^ 32) ha high (omega arith) in
    let low : offset / 2 ^ s < 2 ^ (32 - s) = (div-lt_iff_lt-mul size).1 (omega arith) in
    let whole : actual * 2 ^ 32 ≡ actual * 2 ^ (32 - s) * 2 ^ s =
      omega (arith, ap (λ (t : ℕ). actual * t) split) in
    let quotient : (actual * 2 ^ 32 + offset) / 2 ^ s ≡ actual * 2 ^ (32 - s) + offset / 2 ^ s =
      ap (λ (t : ℕ). (t + offset) / 2 ^ s) whole
      ∙ mul-add-div_right size (actual * 2 ^ (32 - s)) offset in
    ap (λ (t : ℕ). bit_or t (offset / 2 ^ s)) (mod-eq_of_lt fits)
    ∙ bit_or_disjoint (32 - s) actual (offset / 2 ^ s) low
    ∙ sym quotient

-- The direction of the 64-bit commands, `none` for every other command.
unfoldable pub rw64_direction : Command → Option Bool
rw64_direction td_read64 = some true
rw64_direction nscmd_td_read64 = some true
rw64_direction td_write64 = some false
rw64_direction td_format64 = some false
rw64_direction nscmd_td_write64 = some false
rw64_direction nscmd_td_format64 = some false
rw64_direction _ = none

switch-rw64 :
    (c : Command) (read : Bool) (env : Env) (ior : IoReq) (p : Periph)
    → rw64_direction c ≡ some read
    → (extended c ≡ none) × (switch c env ior p ≡ do_rw64 read env ior p)
unfolding rw64_direction extended switch
switch-rw64 td_read64 read env ior p h = (refl, ground arith)
switch-rw64 nscmd_td_read64 read env ior p h = (refl, ground arith)
switch-rw64 td_write64 read env ior p h = (refl, ground arith)
switch-rw64 td_format64 read env ior p h = (refl, ground arith)
switch-rw64 nscmd_td_write64 read env ior p h = (refl, ground arith)
switch-rw64 nscmd_td_format64 read env ior p h = (refl, ground arith)
switch-rw64 _ read env ior p h = absurd (ground arith)

do_rw64-issued :
    (read : Bool) (env : Env) (ior : IoReq) (p : Periph)
    → ior.length ≢ 0
    → (do_rw64 read env ior p).issued
      ≡ sd_readwrite env.scsipi p
          (blkno64 ior.actual ior.offset p.blkshift)
          read
          ior.data_addr
          ior.length
          (some ior.addr)
unfolding do_rw64
do_rw64-issued read env ior p h = ground arith

module _ (env : Env) (ior : IoReq) (p : Periph) (read : Bool)
    (is64 : rw64_direction ior.command ≡ some read) where
  dispatch-rw64 : cmd_do_iorequest env ior p ≡ do_rw64 read env (set_error (pos 0) ior) p
  unfolding cmd_do_iorequest
  dispatch-rw64 =
      let (plain, same) = switch-rw64 ior.command read env (set_error (pos 0) ior) p is64 in
      rw (plain, cmd_do_iorequest) same

  -- A 64-bit read, write or format (TD_READ64, TD_WRITE64, TD_FORMAT64 and the NSCMD commands) asks
  -- the target, in its direction, for the blocks from (io_Actual * 2 ^ 32 + io_Offset) / block size
  -- on, as many as io_Length holds: for 32-bit fields, a block size of at most 2 ^ 32, a length of
  -- at least one block and fewer than 65536, and if a transfer is available.
  pub cmd_do_iorequest-block64 :
      env.scsipi.make_xs ≡ true
      → ior.actual < 2 ^ 32
      → ior.offset < 2 ^ 32
      → ior.length < 2 ^ 32
      → p.blkshift ≤ 32
      → shr ior.length p.blkshift ≢ 0
      → shr ior.length p.blkshift < 2 ^ 16
      → Asks
          (cmd_do_iorequest env ior p).issued
          (some ior.addr)
          (read, (ior.actual * 2 ^ 32 + ior.offset) / 2 ^ p.blkshift, shr ior.length p.blkshift)
  cmd_do_iorequest-block64 found ha ho hl hs some_block few =
      let nonzero : ior.length ≢ 0 =
        λ z. some_block (ap (λ (t : ℕ). t / 2 ^ p.blkshift) z ∙ zero-div (2 ^ p.blkshift)) in
      let issued =
        ap (λ (h : Handled). h.issued) dispatch-rw64
        ∙ do_rw64-issued read env (set_error (pos 0) ior) p nonzero in
      let block = blkno64-div ior.actual ior.offset p.blkshift ha ho hs in
      let small : blkno64 ior.actual ior.offset p.blkshift < 2 ^ 64 =
        omega (arith, div-le_self (ior.actual * 2 ^ 32 + ior.offset) (2 ^ p.blkshift)) in
      rw (issued, ← block)
        (sd_readwrite-decode env.scsipi p (blkno64 ior.actual ior.offset p.blkshift) read
          ior.data_addr ior.length (some ior.addr) found small hl some_block (inl few))
