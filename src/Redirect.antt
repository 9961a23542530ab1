-- ===== src/Redirect.antt =====
-- crates/voidns-core/src/redirect/mod.rs
pub mod Contract
pub mod Parse
pub mod Linux
pub mod Windows
pub mod Macos
pub mod Select
use voindns_desktop.Base.{Error}
use voindns_desktop.Base.Io.{Io}
use voindns_desktop.Std.Net.{IpAddr}

-- `trait DnsRedirector`: its methods as calls on a state, which holds the redirector's own fields
-- and the part of the machine that it works on.
pub record DnsRedirector : Type 1 where
  pub Os : Type 0
  pub apply : IpAddr → Io Os Error Unit
  pub restore : Io Os Error Unit
  pub flush_cache : Io Os Error Unit
