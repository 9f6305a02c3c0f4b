-- ===== src/Examples.antt =====
-- Concrete packets, worlds and tables on which the theorems are applied.
mod Samples
mod Packets
mod Sessions
mod Deliveries
mod Methods
mod Topics
mod Runs
mod Faults
pub mod Acks
pub mod Life
pub mod Records
pub mod Locks
