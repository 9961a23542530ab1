-- ===== src/Redirect/Windows/Natives.antt =====
-- The Windows redirector keeps the controller's contract for an adapter.
use voindns_desktop.Base.{
  ◌≡◌, refl, sym, ◌∙◌, ap, true, false, Bool, Bool-cases, Option, none, some, inl, inr, List, [],
  ◌∷◌, Result, Result-cases, ok, err, Error, Text, codes, text_eq, if◌then◌else◌, elem,
}
use voindns_desktop.Std.Net.{IpAddr, localhost, display_ip}
use voindns_desktop.Redirect.Contract.{Contract}
use voindns_desktop.Redirect.Windows.{
  WindowsApi, Applied, nothing, native, netsh, Windows, run, connected_interfaces, set_natives,
  with_interfaces, apply, restored_machine, restore, flush_cache, windows_redirector,
}
use voindns_desktop.Redirect.Windows.Api.{ApiLaws}
use voindns_desktop.Redirect.Windows.Adapters.{
  Clears, interfaces_dns, applied_natives, restored_natives,
}

-- A static server that is the proxy.
abbrev pub points : Option Text → Bool
points none = false
points (some s) = text_eq s (display_ip localhost)

abbrev pub names_of : Applied → List Text
names_of nothing = []
names_of (native names) = names
names_of (netsh names) = []

abbrev pub IsNative : Applied → Type 0
IsNative nothing = Unit
IsNative (native names) = Unit
IsNative (netsh names) = ⊥

module _ (W : WindowsApi) (L : ApiLaws W) (b : Text) where
  -- The redirector works natively, and has set the adapter if that has the proxy for its server.
  abbrev pub IsKnown : Windows W → Type 0
  IsKnown os =
      IsNative os.applied
      × (points (L.dns os.machine b) ≡ true → elem b (names_of os.applied) ≡ true)

  -- What is asked of the machine at one apply: that the native call sets an interface of those that
  -- are listed, if any.
  abbrev pub SetsOne : IpAddr → Windows W → Type 0
  SetsOne ip os =
      (i : Text) (is : List Text)
      → (connected_interfaces W os.machine).0 ≡ ok (i ∷ is)
      → (n : Text) × (ns : List Text) × ((set_natives W (display_ip ip) (i ∷ is)
            (connected_interfaces W os.machine).1).0
          ≡ n ∷ ns)

  -- and at one restore: that the native calls clear the adapters that were set
  abbrev pub ClearsSet : Windows W → Type 0
  ClearsSet os = Clears W L (names_of os.applied) os.machine

  -- What an apply does to a redirector that is off the proxy.
  abbrev pub Kept : Windows W → Result Error (Unit {0}) × Windows W → Type 0
  Kept os r =
      IsKnown r.1
      × ((e : Error) → r.0 ≡ err e → points (L.dns r.1.machine b) ≡ points (L.dns os.machine b))

  unchanged :
      (os : Windows W) (m : W.Machine) (r : Result Error (Unit {0}))
      → IsNative os.applied
      → points (L.dns os.machine b) ≡ false
      → L.dns m b ≡ L.dns os.machine b
      → Kept os (r, record os { machine = m })
  unchanged os m r how off same =
      ((how, λ on. absurd (cc (ap points same ∙ off, on))), λ e failed. ap points same)

  interfaces-Kept :
      (ip : IpAddr) (os : Windows W) (ifaces : List Text)
      → IsNative os.applied
      → points (L.dns os.machine b) ≡ false
      → (connected_interfaces W os.machine).0 ≡ ok ifaces
      → SetsOne ip os
      → Kept os (apply W ip os)
  unfolding apply with_interfaces
  interfaces-Kept ip os [] how off h works = rw h (
      unchanged os (connected_interfaces W os.machine).1 _ how off
        (interfaces_dns W L os.machine b))
  interfaces-Kept ip os (i ∷ is) how off h works =
      let (n, ns, set') = works i is h in
      let (os1, e, active, given) = applied_natives W L ip os (i ∷ is) n ns h set' in
      rw e (
        (
          rw active tt,
          λ on. elim (Bool-cases (elem b (n ∷ ns))) [
            | inl t ↦ rw active t
            | inr f ↦ absurd (cc (ap points (given b ∙ rw f refl) ∙ off, on))
          ],
        ),
        λ e' failed. absurd cc,
      )

  pub apply-Kept :
      (ip : IpAddr) (os : Windows W)
      → IsKnown os
      → points (L.dns os.machine b) ≡ false
      → SetsOne ip os
      → Kept os (apply W ip os)
  unfolding apply with_interfaces
  apply-Kept ip os (how, known) off works =
      elim (Result-cases (connected_interfaces W os.machine).0) [
        | inl (ifaces, h) ↦ interfaces-Kept ip os ifaces how off h works
        | inr (e, h) ↦ rw h (
            unchanged os (connected_interfaces W os.machine).1 (err e) how off
              (interfaces_dns W L os.machine b))
      ]

  restored_lem :
      (a : Applied) (m : W.Machine)
      → IsNative a
      → Clears W L (names_of a) m
      → L.dns (restore W (record { applied = a; machine = m })).1.machine b
        ≡ (if elem b (names_of a) then none else L.dns m b)
  unfolding restore restored_machine elem
  restored_lem nothing m how works = refl
  restored_lem (native names) m how works =
      restored_natives W L (record { applied = native names; machine = m }) names refl works b
  restored_lem (netsh names) m how works = elim how [ ]

  pub restored_off :
      (os : Windows W)
      → IsKnown os
      → ClearsSet os
      → points (L.dns (restore W os).1.machine b) ≡ false
  restored_off os (how, known) works =
      let back = restored_lem os.applied os.machine how works in
      elim (Bool-cases (points (L.dns os.machine b))) [
        | inl on ↦ ap points back ∙ rw (known on) refl
        | inr off ↦ ap points back ∙ elim (Bool-cases (elem b (names_of os.applied))) [
          | inl t ↦ rw t refl
          | inr f ↦ rw f off
        ]
      ]

  pub restore_succeeds : (os : Windows W) → (restore W os).0 ≡ ok tt
  unfolding restore
  restore_succeeds os = refl

  pub restored-IsKnown : (os : Windows W) → IsKnown os → ClearsSet os → IsKnown (restore W os).1
  unfolding restore
  restored-IsKnown os known works = (tt, λ on. absurd (cc (restored_off os known works, on)))

  run-ipconfig :
      (m : W.Machine) → L.dns (run W (codes "ipconfig") (codes "/flushdns" ∷ []) m).1 b ≡ L.dns m b
  unfolding run
  run-ipconfig m = elim (Result-cases (W.output (codes "ipconfig") (codes "/flushdns" ∷ []) m).0) [
    | inl (o, e) ↦ rw e (L.dns-ipconfig b m)
    | inr (x, e) ↦ rw e (L.dns-ipconfig b m)
  ]

  pub flushed : (os : Windows W) → L.dns (flush_cache W os).1.machine b ≡ L.dns os.machine b
  unfolding flush_cache
  flushed os = run-ipconfig os.machine

  pub flushed-IsKnown : (os : Windows W) → IsKnown os → IsKnown (flush_cache W os).1
  unfolding flush_cache
  flushed-IsKnown os (how, known) = (how, λ on. known (sym (ap points (flushed os)) ∙ on))

  abbrev pub windows-Contract : Contract (windows_redirector W)
  windows-Contract = record {
    routed = λ os. points (L.dns os.machine b);
    IsSound = IsKnown;
    Applies = SetsOne;
    Restores = ClearsSet;
    apply-IsSound = λ ip os s off works. (apply-Kept ip os s off works).0;
    restore-IsSound = λ os s works _. restored-IsKnown os s works;
    flush_cache-IsSound = flushed-IsKnown;
    routed-apply_err = λ ip os e s off works failed. (apply-Kept ip os s off works).1 e failed;
    routed-restore = λ os s works done. restored_off os s works;
    routed-flush_cache = λ os s. ap points (flushed os);
  }
