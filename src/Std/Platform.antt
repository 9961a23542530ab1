-- ===== src/Std/Platform.antt =====
-- The `cfg` of the target that the program asks about.
pub data Platform : Type 0 where
  windows unix : Platform
