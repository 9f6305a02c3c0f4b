-- ===== src/Session.antt =====
-- src/session.h and src/session.cpp.
pub mod Frames
pub mod Handlers
pub mod Streams
pub mod Guards
pub mod Sender
pub mod Payloads
pub mod Events
pub mod Enough
pub mod Acks
pub mod Connect
