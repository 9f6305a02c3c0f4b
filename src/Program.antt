-- ===== src/Program.antt =====
-- The whole program: src/main.cpp, and the broker from its construction on.
pub mod Life
pub mod Sound
pub mod Halt
pub mod Poison
pub mod Options
pub mod Bounds
pub mod Terminal
pub mod Main
pub mod Exits
pub mod Printed
