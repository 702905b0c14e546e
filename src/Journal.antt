-- ===== src/Journal.antt =====
-- The journal of transactions and its nonces (internal/journal).
pub mod Record
pub mod Fold
pub mod Sort
pub mod Store
pub mod Queries
pub mod Nonce
pub mod Ulid
pub mod Tests
