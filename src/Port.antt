-- ===== src/Port.antt =====
-- port.c: the interrupt level (`bsd_splbio`, `bsd_splx`), `itoa`, and the callouts.
pub mod Level
pub mod Itoa
pub mod Callout
