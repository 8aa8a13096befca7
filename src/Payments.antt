-- ===== src/Payments.antt =====
-- lib/payments.ts: how money moves between users and the outside world.
pub mod Store
pub mod Debit
pub mod Credit
pub mod Route
pub mod Controls
pub mod Settle
pub mod Sending
pub mod Onchain
pub mod Onward
pub mod Building
mod Samples
mod Tests
