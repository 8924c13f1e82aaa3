-- ===== src/Cmd/Dispatch/Errors.antt =====
-- Extended requests whose medium has changed are refused.
use a4091_software.Base.{ℕ, ◌+◌, ◌^◌, ◌<◌, ◌≡◌, some, List, arith, ltb, true}
use a4091_software.Codes
use a4091_software.Periph.{Periph}
use a4091_software.Sd.Errors.{XsResult}
use a4091_software.Sd.Media.Count.{watch, changes, watch-changes}
use a4091_software.Cmd.Request.{Command, IoReq, reply, set_error}
use a4091_software.Cmd.Dispatch.{extended, cmd_do_iorequest}
use a4091_software.Cmd.Dispatch.Cases.{Env, unchanged}

lt-ltb : (a b : ℕ) → a < b → ltb a b ≡ true
lt-ltb a b h = ground arith

stale_refused :
    (env : Env) (ior : IoReq) (p : Periph) (cmd : Command)
    → extended ior.command ≡ some cmd
    → ior.count < p.changenum
    → cmd_do_iorequest env ior p ≡ unchanged env (reply (set_error Codes.disk_changed ior)) p
unfolding cmd_do_iorequest
stale_refused env ior p cmd e h = rw (e, cmd_do_iorequest) (rw (lt-ltb _ _ h))

-- An extended request made for the change count of some moment is refused with TDERR_DiskChanged,
-- with nothing sent and the peripheral as it is, once any sequence of TEST UNIT READY results in
-- which the medium came or went has been processed since, while the count stays below 2 ^ 32.
pub cmd_do_iorequest-changed :
    (env : Env) (ior : IoReq) (p : Periph) (cmd : Command) (results : List XsResult)
    → extended ior.command ≡ some cmd
    → ior.count ≡ p.changenum
    → 0 < changes p.media_loaded results
    → p.changenum + changes p.media_loaded results < 2 ^ 32
    → cmd_do_iorequest env ior (watch p results)
      ≡ unchanged env (reply (set_error Codes.disk_changed ior)) (watch p results)
cmd_do_iorequest-changed env ior p cmd results e same moved bound =
    stale_refused env ior (watch p results) cmd e
      (omega (arith, watch-changes p results (omega arith)))
