-- ===== src/Db.antt =====
-- src/db_manager.h and src/db_manager.cpp.
pub mod Tables
pub mod Schema
pub mod Names
pub mod Clients
pub mod Topics
pub mod Subscriptions
pub mod Admins
pub mod Sensors
pub mod Listings
pub mod Committed
pub mod Invariant
pub mod Preserve
pub mod PreserveAdmins
pub mod Steps
pub mod Naming
pub mod Rights
pub mod Granted
pub mod Workflow
pub mod Recorded
