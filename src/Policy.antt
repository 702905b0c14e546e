-- ===== src/Policy.antt =====
-- The guardrail engine that runs ahead of the signer (internal/policy).
pub mod Types
pub mod Limits
pub mod Stages
pub mod Evaluate
pub mod Counter
pub mod Reservation
pub mod Candidates
pub mod Retry
pub mod Store
pub mod Engine
pub mod Reserve
pub mod Body
pub mod Message
pub mod TypedData
pub mod Recognizers
pub mod Writer
pub mod Seal
pub mod Keys
pub mod Admin
pub mod Transitions
mod Tests
