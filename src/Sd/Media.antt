-- ===== src/Sd/Media.antt =====
-- Removable media in sd.c: the loaded flag, the change count and the change interrupts, and the
-- TEST UNIT READY commands that find out. The functions return the interrupts that they `Cause`,
-- in order. Counters are 32-bit.
pub mod Tur
pub mod Count
pub mod Poll
use a4091_software.Base.{
  ℕ, ◌+◌, ◌%◌, ◌^◌, Bool, true, false, not, ◌&&◌, ◌||◌, Option, none, some, List, [], ◌∷◌, ◌++◌,
  if◌then◌else◌,
}
use a4091_software.Periph.{ChangeInt, Periph}

-- The interrupt of TD_REMOVE, then those of TD_ADDCHANGEINT.
unfoldable pub changeint_signals : List ChangeInt → List ℕ
changeint_signals [] = []
changeint_signals (c ∷ cs) = elim c.handler [
  | none ↦ changeint_signals cs
  | some i ↦ i ∷ changeint_signals cs
]

unfoldable pub call_changeintlist : Periph → List ℕ
unfolding changeint_signals
call_changeintlist periph = elim periph.changeint [
  | none ↦ changeint_signals periph.changeintlist
  | some i ↦ i ∷ changeint_signals periph.changeintlist
]

abbrev set_media : Periph → Bool → Periph
set_media periph loaded = record periph {
  media_loaded = loaded;
  changenum = (periph.changenum + 1) % 2 ^ 32;
}

unfoldable pub sd_media_unloaded : Periph → Periph × List ℕ
sd_media_unloaded periph =
    if periph.media_loaded
    then (set_media periph false, call_changeintlist (set_media periph false))
    else (periph, [])

unfoldable pub sd_media_loaded : Periph → Periph × List ℕ
sd_media_loaded periph =
    if not periph.media_loaded
    then (set_media periph true, call_changeintlist (set_media periph true))
    else (periph, [])
