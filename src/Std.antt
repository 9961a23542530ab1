-- ===== src/Std.antt =====
-- The parts of the Rust standard library that the program computes with.
pub mod Decimal
pub mod Platform
pub mod Net
pub mod Str
pub mod Fs
pub mod IpParse
mod Tests
