-- ===== src/Examples/Siop.antt =====
-- The theorems on siop.c at concrete inputs.
use a4091_software.Base.{
  true, false, ℕ, ◌+◌, ◌-◌, ◌*◌, ◌%◌, ◌^◌, ◌≤◌, ◌<◌, ◌≡◌, refl, ◌⊎◌, none, some, List, [], ◌∷◌,
  arith, min, drop,
}
use a4091_software.Siop.Sync.{scsi_period_to_siop, siop_max_offset}
use a4091_software.Siop.Sync.Period.{chip_period, scsi_period_to_siop-chip_period}
use a4091_software.Siop.Dma.{Block, PreDma, dma_list, built, overrun, resume_chain}
use a4091_software.Siop.Dma.Image.{Maps, AllFilled, image, bytes}
use a4091_software.Siop.Dma.Cover.{dma_list-image}
use a4091_software.Siop.Dma.Identity.{identity, dma_list-identity}
use a4091_software.Siop.Dma.Resume.{Outside, total}
use a4091_software.Siop.Mismatch.{Chip, phase_mismatch}
use a4091_software.Siop.Mismatch.Resumed.{WorksOn, phase_mismatch-drop}
use a4091_software.Siop.Queue.{
  Acb, Answer, Softc, siopreset, reset_list, answered, siop_scsipi_request, first_reset, disconnect,
  complete, siop_timeout, siop_scsidone, is_nexus, acbs, siop_sched, take_first, enqueue, set_busy,
  finish, reset_pending, unqueue, is_last, is_in, remove, reset_chip, started, reselect,
  is_reselecting, put_back, Latched, siopintr, answer_all,
}
use a4091_software.Siop.Queue.Count.{In, here, nil-In}
use a4091_software.Siop.Queue.Sound.{Sound, miscounted}
use a4091_software.Siop.Queue.Served.{Served, requested, disconnected, Ordinary-Served}
use a4091_software.Siop.Queue.Kept.{InFlight, IsPossible}
use a4091_software.Siop.Queue.Steps.{Reachable, Reachable-Sound}
use a4091_software.Siop.Queue.Reset.{siopreset-all_answered}

-- Fast SCSI, with an offset of 8, on a chip of 50 MHz: sc_tcp[1] is 20 ns, 100 ns are 5 of them.
fast : scsi_period_to_siop 50 25 8 ≡ (24, 1)
unfolding scsi_period_to_siop
fast = refl

scsi_period_to_siop-chip_period_example :
    ((◌≡◌ {A = ℕ} 24 0 × ◌≡◌ {A = ℕ} 1 0) ⊎ (25 * 4 ≤ chip_period 50 24 1))
    × (24 % 2 ^ 4 ≤ 8)
    × (24 % 2 ^ 4 ≤ siop_max_offset)
    × (24 < 128)
scsi_period_to_siop-chip_period_example =
    scsi_period_to_siop-chip_period 50 25 8 (omega arith) (omega arith) fast

-- Pages of 4 KB of which all are mapped into 64 KB from the second megabyte.
abbrev windowed : ℕ → ℕ
windowed a = a % 2 ^ 16 + 2 ^ 20

abbrev window : PreDma
window continued addr n = (windowed addr, min n (4096 - addr % 4096))

window-Maps : Maps window windowed
window-Maps continued addr n h = (ground arith, ground arith, ground arith, λ j k. ground arith)

-- A buffer that is not aligned and crosses the end of a page, and the end of the window.
dma_list-image_example :
    (dma_list window 20 65534 4000 ≡ overrun)
    ⊎ ((cs : List Block) × (dma_list window 20 65534 4000 ≡ built cs)
        × (bytes cs ≡ image windowed 65534 4000)
        × AllFilled cs)
dma_list-image_example = dma_list-image window windowed 20 65534 4000 window-Maps (omega arith)

wraps :
    dma_list window 20 65534 4000
    ≡ built (
        record { databuf = 1114110; datalen = 2 }
        ∷ record { databuf = 1048576; datalen = 3998 }
        ∷ [])
unfolding dma_list
wraps = refl

dma_list-identity_example :
    dma_list identity 20 4098 100 ≡ built (record { databuf = 4098; datalen = 100 } ∷ [])
dma_list-identity_example =
    dma_list-identity 20 4098 100 (omega arith) (omega arith) (omega arith) (omega arith)

abbrev done_block : Block
done_block = record { databuf = 8192; datalen = 512 }

abbrev cut_block : Block
cut_block = record { databuf = 4096; datalen = 300 }

abbrev last_block : Block
last_block = record { databuf = 16384; datalen = 64 }

elsewhere : Outside 4106 (done_block ∷ [])
unfolding Outside
elsewhere = (refl, tt)

-- 10 bytes of the second block have left the chip; it holds 5 in its FIFO and one in the output register.
abbrev chip : Chip
chip = record { dfifo = 33; dbc0 = 28; dcmd = 0x1100011c; dnad = 4112; orf = true; olf = false }

chip-WorksOn : WorksOn chip cut_block 10 5
chip-WorksOn = record { fifo = omega arith; ahead = refl; address = refl; count = refl }

phase_mismatch-drop_example :
    (cs : List Block) × (resume_chain
        (phase_mismatch chip).0
        (phase_mismatch chip).1
        (done_block ∷ cut_block ∷ last_block ∷ [])
      ≡ some cs)
    × (bytes cs ≡ drop 522 (bytes (done_block ∷ cut_block ∷ last_block ∷ [])))
unfolding bytes total
phase_mismatch-drop_example =
    phase_mismatch-drop chip (done_block ∷ []) (last_block ∷ []) cut_block 10 5 chip-WorksOn
      (omega arith) (omega arith) elsewhere

-- Target 3 disconnects, so a command for it waits, one for target 5 has the chip, and a second one for
-- target 3 is ready.
abbrev three_requests : Softc
three_requests =
    siop_scsipi_request 3 0 (siop_scsipi_request 5 0 (siop_scsipi_request 3 0 (first_reset [])))

empty-Served : Served (first_reset [])
unfolding Served first_reset
empty-Served = λ idle a i. absurd (nil-In a i)

request-Served : (target : ℕ) (s : Softc) → Served s → Served (siop_scsipi_request target 0 s)
request-Served target s v =
    Ordinary-Served s (siop_scsipi_request target 0 s) (requested target 0) v

three-Served : Served three_requests
three-Served = request-Served 3 _ (request-Served 5 _ (request-Served 3 _ empty-Served))

Ordinary-Served_example : Served (disconnect three_requests)
Ordinary-Served_example =
    Ordinary-Served three_requests (disconnect three_requests) disconnected three-Served

three-Reachable : Reachable 0 (disconnect three_requests)
three-Reachable = Reachable.disconnected 0 three_requests (
    Reachable.requested 3 0 0 _
      (Reachable.requested 5 0 0 _ (Reachable.requested 3 0 0 _ (Reachable.initial []))))

-- The target of the first command reselects while the command for target 5 is being started, which is put
-- back, and another one is requested behind it.
abbrev reselected_with_two : Softc
reselected_with_two =
    siop_scsipi_request 4 0 (
      reselect 8 0
        (disconnect (siop_scsipi_request 5 0 (siop_scsipi_request 3 0 (first_reset [])))))

abbrev put_back_5 : Acb
put_back_5 = record { id = 1; target = 5; lun = 0 }

reselected-Reachable : Reachable 0 reselected_with_two
unfolding siop_scsipi_request first_reset disconnect acbs siop_sched take_first enqueue set_busy
    is_reselecting
reselected-Reachable = Reachable.requested 4 0 0 _ (
    Reachable.reselected 8 0 (record { id = 0; target = 3; lun = 0 }, []) 0 _ refl
      (Reachable.disconnected 0 _
        (Reachable.requested 5 0 0 _ (Reachable.requested 3 0 0 _ (Reachable.initial [])))))

waits_again :
    (In put_back_5 reselected_with_two.ready) × (In (started put_back_5) reselected_with_two.log)
unfolding siop_scsipi_request first_reset disconnect acbs siop_sched take_first enqueue set_busy
    is_reselecting reselect put_back
waits_again = (here _, here _)

-- Its timeout then takes the command of target 3 off sc_active too.
lost_count :
    ((siop_timeout put_back_5 reselected_with_two).active ≡ 0)
    × ((siop_timeout put_back_5 reselected_with_two).nexus
        ≡ some record { id = 0; target = 3; lun = 0 })
unfolding siop_scsipi_request first_reset disconnect acbs siop_sched take_first enqueue set_busy
    is_reselecting reselect put_back siop_timeout siop_scsidone is_nexus finish reset_pending
    unqueue is_last is_in remove
lost_count = (refl, refl)

Reachable-Sound_example :
    Sound
      (miscounted put_back_5 reselected_with_two + 0)
      (siop_timeout put_back_5 reselected_with_two)
Reachable-Sound_example =
    Reachable-Sound (miscounted put_back_5 reselected_with_two + 0)
      (siop_timeout put_back_5 reselected_with_two)
      (Reachable.timed_out_ready put_back_5 0 reselected_with_two waits_again.0 waits_again.1
        reselected-Reachable)

siopreset-all_answered_example :
    ((siopreset (Latched.ended Answer.status) (disconnect three_requests)).nexus_list ≡ [])
    × ((a : Acb)
        → InFlight a (siopintr (Latched.ended Answer.status) (disconnect three_requests))
        → In
            (answered a Answer.reset_error)
            (siopreset (Latched.ended Answer.status) (disconnect three_requests)).log)
siopreset-all_answered_example =
    siopreset-all_answered (Latched.ended Answer.status) 0 (disconnect three_requests)
      (unfold IsPossible in tt) three-Reachable

-- The command for target 5 ends, and the one that waits for target 3 times out: the other one for target 3
-- stays ready, with nothing at the chip and its LUN idle.
abbrev late : Softc
late =
    siop_timeout record { id = 0; target = 3; lun = 0 }
      (complete Answer.status (disconnect three_requests))

stalled :
    (late.nexus ≡ none)
    × (late.ready ≡ record { id = 2; target = 3; lun = 0 } ∷ [])
    × (late.busy 3 0 ≡ false)
unfolding siop_scsipi_request first_reset disconnect complete siop_timeout siop_scsidone is_nexus
    acbs siop_sched take_first enqueue set_busy finish reset_pending unqueue is_last is_in remove
    reset_chip
stalled = (refl, refl, refl)

-- A reset answers the command that has the chip, and starts the next one, before the chip is reset.
two_targets :
    (siopreset Latched.nothing
      (siop_scsipi_request 5 0 (siop_scsipi_request 3 0 (first_reset [])))).nexus
    ≡ some record { id = 1; target = 5; lun = 0 }
unfolding siop_scsipi_request first_reset siopreset siopintr answer_all reset_chip reset_list acbs
    siop_sched take_first enqueue siop_scsidone is_nexus finish reset_pending unqueue set_busy
two_targets = refl
