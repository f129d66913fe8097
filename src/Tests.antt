-- ===== src/Tests.antt =====
-- Concrete runs of the model: a small platform, a merchant, a settled transaction, and the theorems
-- at these inputs.
mod Scenario
mod Settled
mod Stores
mod Paid
mod Route
mod Buying
mod Mandates
mod Files
mod Fetching
