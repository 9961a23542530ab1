-- ===== src/Redirect/Select.antt =====
-- crates/voidns-core/src/redirect/mod.rs: the redirector of the platform.
pub mod Fresh
mod Examples
use voindns_desktop.Base.{Result, ok, err, Error, anyhow, codes}
use voindns_desktop.Std.Fs.{Disk}
use voindns_desktop.Redirect.{DnsRedirector}
use voindns_desktop.Redirect.Linux as Linux
use voindns_desktop.Redirect.Linux.{Bus, linux_redirector}
use voindns_desktop.Redirect.Windows as Windows
use voindns_desktop.Redirect.Windows.{WindowsApi, windows_redirector}
use voindns_desktop.Redirect.Macos as Macos
use voindns_desktop.Redirect.Macos.{MacosApi, macos_redirector}

-- `target_os`
pub data TargetOs : Type 0 where
  linux windows macos : TargetOs
  other : TargetOs

-- What the redirector of each platform works on.
pub record Host : Type 1 where
  pub bus_api : Bus
  pub disk : Disk
  pub bus : bus_api.State
  pub windows_api : WindowsApi
  pub windows_machine : windows_api.Machine
  pub macos_api : MacosApi
  pub macos_machine : macos_api.Machine

-- `Box<dyn DnsRedirector>`
pub record Boxed : Type 1 where
  pub redirector : DnsRedirector
  pub os : redirector.Os

unfoldable pub new_redirector : TargetOs → Host → Result Error Boxed
new_redirector linux h =
    ok (record { redirector = linux_redirector h.bus_api; os = Linux.new h.bus_api h.disk h.bus })
new_redirector windows h = ok (record {
  redirector = windows_redirector h.windows_api;
  os = Windows.new h.windows_api h.windows_machine;
})
new_redirector macos h = ok (record {
  redirector = macos_redirector h.macos_api;
  os = Macos.new h.macos_api h.macos_machine;
})
new_redirector other h = err (anyhow (codes "DNS redirection is not implemented for this platform"))
