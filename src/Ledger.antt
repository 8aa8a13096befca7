-- ===== src/Ledger.antt =====
-- lib/tb.ts: the balances, kept in a TigerBeetle cluster.
pub mod Bits
pub mod Ids
pub mod Distinct
pub mod Client
pub mod Cluster
pub mod Debit
pub mod Posting
pub mod Operations
pub mod Effects
pub mod Refunds
pub mod Credits
mod Tests
