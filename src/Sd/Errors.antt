-- ===== src/Sd/Errors.antt =====
-- `translate_xs_error` of sd.c: the result of a transfer as an AmigaOS error code.
use a4091_software.Base.{
  ℕ, ◌≡◌, ◌<◌, ◌↔◌, Bool, ◌&&◌, ◌||◌, List, [], ◌∷◌, arith, ltb, ◌==◌, length, if◌then◌else◌,
  get_or,
}
use a4091_software.Base.Int.{ℤ, pos, to_int8}
use a4091_software.Codes

-- The result of a transfer: `xs->error`, and the sense data that XS_SENSE refers to.
pub record XsResult : Type 0 where
  pub error : ℕ
  pub sense_key : ℕ
  pub asc : ℕ
  pub ascq : ℕ

abbrev pub xs_sense : ℕ
xs_sense = 1

abbrev error_code_mapping : List ℤ
error_code_mapping =
    pos 0
    ∷ Codes.sense_code
    ∷ Codes.bad_status
    ∷ Codes.dma
    ∷ Codes.no_memory
    ∷ Codes.sel_timeout
    ∷ Codes.timeout
    ∷ Codes.unit_busy
    ∷ Codes.bus_reset
    ∷ Codes.try_again
    ∷ []

map_error : ℕ → ℤ
map_error res =
    if ltb res (length error_code_mapping) then get_or error_code_mapping res (pos 0) else pos res

-- The medium is absent: ASC 3a, or 04/02.
abbrev pub no_disk : ℕ → ℕ → Bool
no_disk asc ascq = asc == 0x3a || (asc == 4 && ascq == 2)

unfoldable pub translate_xs_error : XsResult → ℤ
unfolding map_error
translate_xs_error xs =
    if xs.error == xs_sense
    then (if no_disk asc ascq
        then Codes.disk_changed
        else if asc == 4 && ascq == 1
        then Codes.not_ready
        else if asc == 0x27
        then Codes.write_prot
        else map_error xs.error)
    else map_error xs.error
  where
    open xs use {asc, ascq}

-- Of each of the ten results of the scsipi layer: it is reported as a success exactly if it is that
-- there was no error, and its code is one that the 8-bit io_Error holds unchanged.
pub translate_xs_error_success :
    (xs : XsResult)
    → xs.error < 10
    → ((translate_xs_error xs ≡ pos 0) ↔ (xs.error ≡ 0))
      × (to_int8 (translate_xs_error xs) ≡ translate_xs_error xs)
unfolding translate_xs_error to_int8
translate_xs_error_success xs h = (ground arith, ground arith)
