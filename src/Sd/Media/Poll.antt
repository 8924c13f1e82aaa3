-- ===== src/Sd/Media/Poll.antt =====
-- `sd_testunitready_walk` of sd.c: every fourth call polls the peripherals that have clients waiting
-- for a change. The peripherals come in the order of the hash buckets.
use a4091_software.Base.{
  ℕ, suc, zero, ◌+◌, ◌%◌, ◌<◌, ◌≡◌, refl, Bool, true, false, not, ◌&&◌, ◌||◌, Option, none, some,
  List, [], ◌∷◌, map, arith, ◌==◌, if◌then◌else◌,
}
use a4091_software.Scsi.{Scsipi}
use a4091_software.Periph.{Periph}
use a4091_software.Sd.Media.Tur.{sd_testunitready}

abbrev pub is_some {ℓ} : {A : Type ℓ} → Option A → Bool
is_some none = false
is_some (some _) = true

abbrev pub is_nil {ℓ} : {A : Type ℓ} → List A → Bool
is_nil [] = true
is_nil (_ ∷ _) = false

needs_poll : Periph → Bool
needs_poll p = (p.tur_active == 0) && (is_some p.changeint || not (is_nil p.changeintlist))

-- The scsipi layer's answers may differ from peripheral to peripheral.
walk : (Periph → Scsipi) → List Periph → List Periph
unfolding needs_poll
walk s [] = []
walk s (p ∷ ps) = (if needs_poll p then (sd_testunitready (s p) p none).periph else p) ∷ walk s ps

-- `iter` is a static uint8_t, tested before it is increased.
unfoldable pub sd_testunitready_walk : (Periph → Scsipi) → ℕ → List Periph → ℕ × List Periph
unfolding walk
sd_testunitready_walk s iter periphs =
    ((iter + 1) % 256, if iter % 4 == 0 then walk s periphs else periphs)

-- Whether a peripheral is sent a command: it has a client, no command is under way, it supports the
-- command, and a transfer is available.
abbrev pub is_polled : (Periph → Scsipi) → Periph → Bool
is_polled s p =
    (p.tur_active == 0)
    && ((is_some p.changeint || not (is_nil p.changeintlist)) && (not p.notur && (s p).make_xs))

abbrev pub polled : (Periph → Scsipi) → Periph → Periph
polled s p = if is_polled s p then record p { tur_active = 1 } else p

walk-polled : (s : Periph → Scsipi) (ps : List Periph) → walk s ps ≡ map (polled s) ps
unfolding walk sd_testunitready
walk-polled s [] = refl
walk-polled s (p ∷ ps) = rw (walk-polled s ps) (ground arith)

-- `n` calls in a row, with nothing completed in between.
pub walks : (Periph → Scsipi) → ℕ → ℕ × List Periph → ℕ × List Periph
walks s zero (iter, ps) = (iter, ps)
walks s (suc n) (iter, ps) = walks s n (sd_testunitready_walk s iter ps)

-- From an 8-bit counter that is a multiple of 4, four calls poll once: exactly the peripherals with
-- a waiting client, no TEST UNIT READY under way, support for the command and a free transfer get
-- one command, and nothing else changes but the counter.
pub sd_testunitready_walk-four :
    (s : Periph → Scsipi) (iter : ℕ) (ps : List Periph)
    → iter < 256
    → iter % 4 ≡ 0
    → walks s 4 (iter, ps) ≡ ((iter + 4) % 256, map (polled s) ps)
unfolding walks sd_testunitready_walk
sd_testunitready_walk-four s iter ps h z = ground (arith, walk-polled s ps)
