-- ===== src/Controller/Behind.antt =====
-- processBehindBlock and processTxs.
pub mod Txs
pub mod Blocks
pub mod Range
pub mod Whole
