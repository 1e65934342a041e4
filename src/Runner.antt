-- ===== src/Runner.antt =====
-- The autonomous runner of platform/app: what may be written, what was written, and recovery.
pub mod Effects
pub mod Ledger
pub mod Authority
pub mod Outcome
pub mod Recovery
pub mod Reconcile
pub mod Service
