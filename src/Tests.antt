-- ===== src/Tests.antt =====
-- Concrete crates, runs of the operations, and the theorems at inputs that meet their hypotheses.
mod World
mod Runs
mod Witnesses
mod Data
mod Outcomes
mod Built
mod Equal
mod Owned
mod Requests
mod Handles
