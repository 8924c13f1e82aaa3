-- ===== src/Codes.antt =====
-- The error codes of device.h and, beside them, the AmigaOS codes of the NDK headers that the
-- sources return (devices/trackdisk.h, devices/scsidisk.h, exec/errors.h).
use a4091_software.Base.Int.{ℤ, pos, negsuc}

abbrev pub open_fail : ℤ
open_fail = negsuc 0

abbrev pub unknown_command : ℤ
unknown_command = negsuc 2

-- IOERR_BADLENGTH, IOERR_BADADDRESS and IOERR_UNITBUSY of exec/errors.h.
abbrev pub bad_length : ℤ
bad_length = negsuc 3

abbrev pub bad_address : ℤ
bad_address = negsuc 4

abbrev pub unit_busy : ℤ
unit_busy = negsuc 5

-- TDERR_WriteProt, TDERR_DiskChanged and TDERR_NoMem of devices/trackdisk.h.
abbrev pub write_prot : ℤ
write_prot = pos 28

abbrev pub disk_changed : ℤ
disk_changed = pos 29

abbrev pub no_memory : ℤ
no_memory = pos 31

abbrev pub bad_unit : ℤ
bad_unit = pos 32

abbrev pub self_unit : ℤ
self_unit = pos 40

-- HFERR_DMA, HFERR_SelTimeout and HFERR_BadStatus of devices/scsidisk.h.
abbrev pub dma : ℤ
dma = pos 41

abbrev pub sel_timeout : ℤ
sel_timeout = pos 44

abbrev pub bad_status : ℤ
bad_status = pos 45

abbrev pub timeout : ℤ
timeout = pos 47

abbrev pub bus_reset : ℤ
bus_reset = pos 48

abbrev pub try_again : ℤ
try_again = pos 49

abbrev pub sense_code : ℤ
sense_code = pos 52

abbrev pub not_ready : ℤ
not_ready = pos 53

abbrev pub bad_board : ℤ
bad_board = pos 51
