-- ===== src/Limits.antt =====
-- The controls on how much money may leave, beyond what a single payment may: the withdrawal
-- breaker, the spending allowance of a caller, and the guard of the mint.
pub mod Breaker
pub mod Allowance
pub mod Meltguard
mod Tests
