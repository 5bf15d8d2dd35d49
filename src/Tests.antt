-- ===== src/Tests.antt =====
-- Concrete runs: the theorems at inputs that meet their hypotheses.
mod Setup
mod Agreements
mod Chains
mod Sealed
mod Delegates
mod Councils
mod Workflows
mod Contracts
mod Checkpoints
mod Batches
mod Messages
mod Envelopes
mod Stores
mod Retries
mod Restored
