-- ===== src/Siop/Queue.antt =====
-- The command queues of siop.c: an ACB is free, ready, on the nexus list (its target has disconnected),
-- or the current nexus. `siop_scsipi_request`, `siop_sched`, `siop_scsidone`, `siop_timeout` and
-- `siopreset`, and the interrupts by which a target disconnects and reselects. What they do to the chip is
-- left out, and an interrupt that is an error of the chip; what they start and answer is in a log. Polled commands (XS_CTL_POLL) and commands that
-- reset the bus (XS_CTL_RESET, which nothing sets) are left out. So is the run of the channel's queue at the
-- end of `scsipi_done`: the requests that it makes are requests like any other, later.
pub mod Count
pub mod Served
pub mod Sound
pub mod Kept
pub mod Steps
pub mod Reset
use a4091_software.Base.{
  ℕ, zero, suc, ◌+◌, ◌-◌, ◌%◌, ◌^◌, Bool, true, false, not, ◌&&◌, Option, none, some, List, [], ◌∷◌,
  ◌++◌, ◌==◌, if◌then◌else◌, length,
}

-- An ACB with the target and LUN of its transfer. `id` stands for its address.
pub record Acb : Type 0 where
  pub id : ℕ
  pub target : ℕ
  pub lun : ℕ

-- How a transfer is answered: with the target's status, or the error of its transfer.
pub data Answer : Type 0 where
  status timeout reset_error select_timeout : Answer

pub data LogEntry : Type 0 where
  started : Acb → LogEntry
  answered : Acb → Answer → LogEntry
  chip_reset : LogEntry

-- The fields of `struct siop_softc`; `busy` is the bits of lubusy, `reset_pend` the channel's
-- SCSIPI_CHAN_RESET_PEND. The log has its last entry first.
pub record Softc : Type 0 where
  pub free : List ℕ
  pub ready : List Acb
  pub nexus_list : List Acb
  pub nexus : Option Acb
  pub busy : ℕ → ℕ → Bool
  pub active : ℕ
  pub reset_pend : Bool
  pub log : List LogEntry

unfoldable pub set_busy : Acb → Bool → (ℕ → ℕ → Bool) → ℕ → ℕ → Bool
set_busy a b busy t l = if t == a.target && l == a.lun then b else busy t l

abbrev pub is_busy : Softc → Acb → Bool
is_busy s a = s.busy a.target a.lun

-- The first of a list that a test accepts, and the list without it.
unfoldable pub take_first : (Acb → Bool) → List Acb → Option (Acb × List Acb)
take_first p [] = none
take_first p (a ∷ rest) =
    if p a
    then some (a, rest)
    else elim (take_first p rest) [ none ↦ none | some r ↦ some (r.0, a ∷ r.1) ]

-- The next ready command whose LUN is not busy is started.
unfoldable pub siop_sched : Softc → Softc
siop_sched s = elim (take_first (λ a. not (is_busy s a)) s.ready) [
  | none ↦ s
  | some r ↦ record s {
    ready = r.1;
    nexus = some r.0;
    busy = set_busy r.0 true s.busy;
    active = (s.active + 1) % 2 ^ 32;
    log = started r.0 ∷ s.log;
  }
]

unfoldable pub is_nexus : Acb → Option Acb → Bool
is_nexus a none = false
is_nexus a (some n) = n.id == a.id

unfoldable pub is_last : Acb → List Acb → Bool
is_last a [] = false
is_last a (b ∷ []) = b.id == a.id
is_last a (b ∷ c ∷ bs) = is_last a (c ∷ bs)

unfoldable pub is_in : Acb → List Acb → Bool
is_in a [] = false
is_in a (b ∷ bs) = if b.id == a.id then true else is_in a bs

unfoldable pub remove : Acb → List Acb → List Acb
remove a [] = []
remove a (b ∷ bs) = if b.id == a.id then bs else b ∷ remove a bs

abbrev pub one_less : ℕ → ℕ
one_less active = (active + 2 ^ 32 - 1) % 2 ^ 32

-- The ACB leaves the place where it is, and is free. What is not the last of the ready list is told
-- from an ACB of neither list by its next one.
unfoldable pub unqueue : Acb → Softc → Softc
unqueue a s =
    let idle = set_busy a false s.busy in
    if is_nexus a s.nexus
    then record s { nexus = none; busy = idle; active = one_less s.active; free = a.id ∷ s.free }
    else if is_last a s.ready
    then record s { ready = remove a s.ready; free = a.id ∷ s.free }
    else if is_in a s.nexus_list
    then record s {
      nexus_list = remove a s.nexus_list;
      busy = idle;
      active = one_less s.active;
      free = a.id ∷ s.free;
    }
    else if is_in a s.ready
    then record s { ready = remove a s.ready; active = one_less s.active; free = a.id ∷ s.free }
    else record s { free = a.id ∷ s.free }

abbrev pub is_idle : Softc → Bool
is_idle s = elim s.nexus [
  | none ↦ elim s.nexus_list [ [] ↦ true | ◌∷◌ a rest ↦ false ]
  | some a ↦ false
]

abbrev pub has_ready : Softc → Bool
has_ready s = elim s.ready [ [] ↦ false | ◌∷◌ a rest ↦ true ]

unfoldable pub acbs : (n from : ℕ) → List ℕ
acbs zero from = []
acbs (suc n) from = from ∷ acbs n (from + 1)

-- What the first `siopreset` sets up: SIOP_NACB ACBs, and all else empty.
unfoldable pub first_reset : List LogEntry → Softc
first_reset log = record {
  free = acbs 16 0;
  ready = [];
  nexus_list = [];
  nexus = none;
  busy = λ t l. false;
  active = 0;
  reset_pend = false;
  log = chip_reset ∷ log;
}

-- `siopreset` where no command is at a target, and so no interrupt of a target is latched.
unfoldable pub reset_chip : Softc → Softc
reset_chip s = record s { reset_pend = false; log = chip_reset ∷ s.log }

-- The reset that a timeout left for later, where nothing is at a target any more.
unfoldable pub reset_pending : Softc → Softc
reset_pending s = if s.reset_pend && is_idle s then reset_chip s else s

-- All of `siop_scsidone` but its last step: the command is answered, and a reset that waits is done.
unfoldable pub finish : Acb → Answer → Softc → Softc
finish a answer s =
    let left = unqueue a s in reset_pending (record left { log = answered a answer ∷ left.log })

-- Where the nexus was answered, the next command is started.
unfoldable pub siop_scsidone : Acb → Answer → Softc → Softc
siop_scsidone a answer s =
    if is_nexus a s.nexus && has_ready s then siop_sched (finish a answer s) else finish a answer s

-- The commands on the nexus list are answered one by one.
unfoldable pub reset_list : ℕ → Softc → Softc
reset_list zero s = s
reset_list (suc n) s = elim s.nexus_list [
  | [] ↦ s
  | ◌∷◌ a rest ↦ reset_list n (siop_scsidone a reset_error s)
]

-- The chip has been reset: the nexus is answered, then the nexus list.
unfoldable pub answer_all : Softc → Softc
answer_all s =
    let first : Softc = elim s.nexus [ none ↦ s | some a ↦ siop_scsidone a reset_error s ] in
    reset_chip (reset_list (length first.nexus_list) first)

unfoldable pub siop_timeout : Acb → Softc → Softc
siop_timeout a s = siop_scsidone a timeout (record s { reset_pend = true })

-- The transfer in the first free ACB goes to the end of the ready list.
unfoldable pub enqueue : (id : ℕ) → List ℕ → (target lun : ℕ) → Softc → Softc
enqueue id rest target lun s = record s {
  free = rest;
  ready = s.ready ++ record { id = id; target = target; lun = lun } ∷ [];
}

-- ADAPTER_REQ_RUN_XFER for a transfer to a target and LUN. No free ACB is a panic, here no change.
unfoldable pub siop_scsipi_request : (target lun : ℕ) → Softc → Softc
siop_scsipi_request target lun s = elim s.free [
  | [] ↦ s
  | ◌∷◌ id rest ↦
      let queued = enqueue id rest target lun s in
      elim s.nexus [ none ↦ siop_sched queued | some n ↦ queued ]
]

abbrev pub to_nexus_list : Acb → Softc → Softc
to_nexus_list a s = record s { nexus = none; nexus_list = a ∷ s.nexus_list }

-- The target of the nexus disconnects.
unfoldable pub disconnect : Softc → Softc
disconnect s = elim s.nexus [
  | none ↦ s
  | some a ↦ if has_ready s then siop_sched (to_nexus_list a s) else to_nexus_list a s
]

-- The id bits of the bus, of which the highest is masked, and the identify message, of a reselecting
-- target.
unfoldable pub is_reselecting : (scratch sfbr : ℕ) → Acb → Bool
is_reselecting scratch sfbr a = scratch % 2 ^ 7 == 2 ^ a.target && sfbr % 2 ^ 3 == a.lun % 2 ^ 3

-- A command that was being started goes back to the head of the ready list.
unfoldable pub put_back : Softc → Softc
put_back s = elim s.nexus [
  | none ↦ s
  | some n ↦ record s {
    ready = n ∷ s.ready;
    busy = set_busy n false s.busy;
    active = one_less s.active;
  }
]

-- A target reselects. No command for it is a panic, and the nexus stays.
unfoldable pub reselect : (scratch sfbr : ℕ) → Softc → Softc
reselect scratch sfbr s =
    let back = put_back s in
    elim (take_first (is_reselecting scratch sfbr) back.nexus_list) [
      | none ↦ back
      | some r ↦ record back { nexus_list = r.1; nexus = some r.0 }
    ]

-- A status interrupt, or a selection that times out. `none` in place of a nexus is refused.
unfoldable pub complete : Answer → Softc → Softc
complete answer s = elim s.nexus [ none ↦ s | some a ↦ siop_scsidone a answer s ]

-- The interrupt that the chip has latched when `siopreset` calls `siopintr`: none, the end of the nexus, its
-- disconnection, or a reselection.
pub data Latched : Type 0 where
  nothing : Latched
  ended : Answer → Latched
  left : Latched
  back : (scratch sfbr : ℕ) → Latched

unfoldable pub siopintr : Latched → Softc → Softc
siopintr nothing s = s
siopintr (ended answer) s = complete answer s
siopintr left s = disconnect s
siopintr (back scratch sfbr) s = reselect scratch sfbr s

-- `siopreset` of a driver that is alive.
unfoldable pub siopreset : Latched → Softc → Softc
siopreset latched s = answer_all (siopintr latched s)
