-- ===== src/Codec.antt =====
-- The canonical binary encoding, internal/v2/codec/codec.go: `Writer` and `Reader` with the framing
-- of domain hashes. The proofs are in the modules below.
pub mod BigEndian
pub mod Writer
pub mod Reader
pub mod Hash
pub mod Reads
pub mod Combine
pub mod Accepts
