-- ===== src/Examples.antt =====
-- The theorems at concrete inputs, and tests of the definitions.
mod Sd
mod Cmd
mod Romtool
mod Device
mod Battmem
mod Mounter
mod Relocate
mod Drive
mod Port
mod Siop
mod FileSystems
mod Attach
