-- ===== src/Tests.antt =====
-- The theorems applied to concrete values, and runs of the code on them.
pub mod Common
pub mod Consensus
pub mod Transitions
pub mod Signing
pub mod Trees
pub mod State
pub mod Stores
pub mod Transfers
pub mod Creations
pub mod Tokens
pub mod Objects
pub mod Agreements
pub mod Fees
