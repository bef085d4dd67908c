-- ===== src/Examples.antt =====
-- Concrete memories, and the theorems at them.
mod Data
mod Flows
mod Lifecycle
mod Lives
mod Loads
mod Notes
mod Queues
mod Returns
mod Scripts
mod Schedule
mod Starts
