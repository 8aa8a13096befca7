-- ===== src/Blocks.antt =====
-- lib/zmq.ts: blocks and transactions that the bitcoin node announces.
pub mod VarInt
pub mod Transaction
pub mod Announced
pub mod Frames
mod Tests
