-- ===== src/Net.antt =====
-- lib/safe-fetch.ts: requests to addresses that users choose.
pub mod Addresses
pub mod Fetch
mod Tests
