-- ===== src/Examples.antt =====
-- The theorems at concrete inputs, with whole numbers for `double`.
mod Point
mod Steering
mod Nodes
mod Scheduling
mod Simulation
mod Rounds
mod Life
mod Loops
mod Drivers
mod Derivation
