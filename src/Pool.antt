-- ===== src/Pool.antt =====
-- The pool's own state and arithmetic (crates/dinero-sv2-pool/src).
pub mod Split
pub mod Window
pub mod Target
pub mod Dedup
pub mod Hashes
pub mod Bans
pub mod Gate
pub mod Backend
pub mod Block
pub mod Journal
pub mod Commitment
pub mod Mapper
pub mod Ledger
pub mod Telemetry
pub mod Work
pub mod Session
pub mod Accept
pub mod Solo
pub mod Shared
pub mod Rebuild
pub mod Extended
pub mod Calls
pub mod Template
