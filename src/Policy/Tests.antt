-- ===== src/Policy/Tests.antt =====
-- Runs of the engine on small inputs (internal/policy).
mod Data
mod Verdicts
mod Runs
mod Records
mod Sealed
mod Faithful
mod Edits
mod Admin
mod Typed
mod Sends
