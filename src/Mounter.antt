-- ===== src/Mounter.antt =====
-- The mounter of the boot ROM, mounter.c: it finds a drive's partitions and file systems in the
-- blocks of the Rigid Disk Block format and adds them to the system.
pub mod Blocks
pub mod Lseg
pub mod Names
pub mod Scan
pub mod Relocate
pub mod Cdrom
pub mod Drive
pub mod FileSystems
