-- ===== src/Siop.antt =====
-- siop.c, the driver of the NCR 53C710: synchronous transfers (Sync), the list of DMA blocks (Dma), where
-- a transfer was interrupted (Mismatch), and the queues of commands (Queue).
pub mod Sync
pub mod Dma
pub mod Queue
pub mod Mismatch
