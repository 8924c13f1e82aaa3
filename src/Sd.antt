-- ===== src/Sd.antt =====
-- The SCSI disk layer, sd.c: one child for each group of its functions.
pub mod Errors
pub mod ReadWrite
pub mod BlockSize
pub mod Direct
pub mod Geometry
pub mod Media
pub mod Capacity
