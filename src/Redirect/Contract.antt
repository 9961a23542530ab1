-- ===== src/Redirect/Contract.antt =====
-- What the trait's documentation promises the controller.
use voindns_desktop.Base.{◌≡◌, Bool, false, ok, err, Error}
use voindns_desktop.Std.Net.{IpAddr}
use voindns_desktop.Redirect.{DnsRedirector}

-- `routed` tells whether the system's DNS points at the proxy. `IsSound` is the invariant of the
-- implementation, `Applies` and `Restores` are what the calls of one apply and of one restore have to
-- do, and the laws are about the states where these hold.
pub record Contract (R : DnsRedirector) : Type 1 where
  pub routed : R.Os → Bool
  pub IsSound : R.Os → Type 0
  pub Applies : IpAddr → R.Os → Type 0
  pub Restores : R.Os → Type 0
  -- it is applied only while the system is off the proxy
  pub apply-IsSound :
      (ip : IpAddr) (os : R.Os)
      → IsSound os
      → routed os ≡ false
      → Applies ip os
      → IsSound (R.apply ip os).1
  -- nothing is asked of a restore that fails
  pub restore-IsSound :
      (os : R.Os) → IsSound os → Restores os → (R.restore os).0 ≡ ok tt → IsSound (R.restore os).1
  pub flush_cache-IsSound : (os : R.Os) → IsSound os → IsSound (R.flush_cache os).1
  -- a redirection that fails leaves the system where it was
  pub routed-apply_err :
      (ip : IpAddr) (os : R.Os) (e : Error)
      → IsSound os
      → routed os ≡ false
      → Applies ip os
      → (R.apply ip os).0 ≡ err e
      → routed (R.apply ip os).1 ≡ routed os
  -- a restore that reports success has taken the system off the proxy
  pub routed-restore :
      (os : R.Os)
      → IsSound os
      → Restores os
      → (R.restore os).0 ≡ ok tt
      → routed (R.restore os).1 ≡ false
  pub routed-flush_cache : (os : R.Os) → IsSound os → routed (R.flush_cache os).1 ≡ routed os
