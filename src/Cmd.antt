-- ===== src/Cmd.antt =====
-- The command handler, cmdhandler.c: one child for each group of its functions.
pub mod ChangeInt
pub mod Request
pub mod Dispatch
pub mod Units
pub mod Loop
