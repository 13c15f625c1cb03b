-- ===== src/Examples.antt =====
-- Concrete runs of the models, to which the theorems are applied.
mod Queues
mod Pools
mod Parts
mod Tasks
mod Races
mod Recycling
mod Parking
mod Dispatching
mod Handshakes
mod Comparisons
mod Stopping
mod Fuzzing
mod Registry
mod Exports
