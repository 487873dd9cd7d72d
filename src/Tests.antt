-- ===== src/Tests.antt =====
-- Concrete runs of the model: each theorem of the results applied to records of a small bridge.
mod Data
mod Runs
mod Deliveries
mod Queues
mod Stores
mod Rounds
mod States
mod Identities
