-- ===== src/Wallet.antt =====
-- lib/nwc.ts: wallet connections, through which apps ask for payments over Nostr.
pub mod Budget
pub mod Admission
pub mod Containment
pub mod Instruction
pub mod Handlers
mod Tests
