-- ===== src/Broker.antt =====
-- src/broker.h and src/broker.cpp.
pub mod World
pub mod Names
pub mod Sessions
pub mod Subscriptions
pub mod Notify
pub mod Admin
pub mod Markers
pub mod Control
pub mod Publish
pub mod Listings
pub mod Subscribed
pub mod Registry
pub mod Stale
pub mod Sensors
pub mod Forged
pub mod Quiet
pub mod Delivery
pub mod Thrown
pub mod Reaches
pub mod Calls
pub mod Distinct
pub mod Once
pub mod Requests
pub mod Crash
pub mod Recorded
pub mod Known
pub mod Lifecycle
