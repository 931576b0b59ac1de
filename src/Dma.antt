-- ===== src/Dma.antt =====
-- vfi_dma.c: the table of the DMA engines, and the pages of a shared memory buffer.
pub mod Registry
pub mod Pages
mod Tests
