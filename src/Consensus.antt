-- ===== src/Consensus.antt =====
-- Weighted validator consensus, internal/v2/consensus: the validator sets, the messages, the quorum
-- certificates.
pub mod Validators
pub mod Votes
pub mod Power
pub mod Quorums
pub mod Safety
pub mod Order
pub mod Proposers
pub mod Turns
pub mod Transitions
