-- ===== src/Locks.antt =====
-- The methods of src/broker.cpp between its locks: what the threads of `start` can do to each other.
pub mod Prog
pub mod Runs
pub mod Methods
pub mod Notices
pub mod Requests
pub mod Markers
pub mod Control
pub mod Lists
pub mod Activity
pub mod Handlers
pub mod Alone
pub mod AloneAdmin
pub mod AloneControl
pub mod AloneSession
pub mod Order
pub mod Pieces
pub mod Safe
pub mod Keep
pub mod KeepTopics
pub mod KeepAdmin
pub mod KeepControl
pub mod KeepSession
pub mod Whole
pub mod Schedule
pub mod Progress
pub mod Atomic
