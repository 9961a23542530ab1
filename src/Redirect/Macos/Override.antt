-- ===== src/Redirect/Macos/Override.antt =====
-- The macOS redirector keeps the controller's contract, for the override of a service in the dynamic
-- store.
use voindns_desktop.Base.{
  ◌≡◌, refl, sym, ◌∙◌, ap, true, false, Bool, Bool-cases, Option, none, some, inl, inr, List, [],
  ◌∷◌, Result-cases, ok, err, Error, Text, text_eq, if◌then◌else◌, elem,
}
use voindns_desktop.Std.Net.{IpAddr, localhost, display_ip}
use voindns_desktop.Redirect.Contract.{Contract}
use voindns_desktop.Redirect.Macos.{
  MacosApi, Applied, nothing, native, shell, Macos, apply_native, flush_machine, flush_cache, apply,
  restore, restore_from, macos_redirector,
}
use voindns_desktop.Redirect.Macos.Paths.{
  StoreLaws, flush_machine_lem, apply_native_lem, applied_native, restored_native,
}
use voindns_desktop.Redirect.Macos.Apart.{fallen_back, restore_shell-state}

-- An override that names the proxy first.
abbrev pub points : Option (List Text) → Bool
points none = false
points (some []) = false
points (some (s ∷ ss)) = text_eq s (display_ip localhost)

abbrev pub paths_of : Applied → List Text
paths_of nothing = []
paths_of (native paths) = paths
paths_of (shell prev) = []

module _ (M : MacosApi) (L : StoreLaws M) (p : Text) where
  module _ (works : (m : M.Machine) → (M.build m).0 ≡ true) where
    pub restored_lem :
        (a : Applied) (m : M.Machine)
        → ((restore M (record { applied = a; machine = m })).0 ≡ ok tt)
          × (L.state (restore M (record { applied = a; machine = m })).1.machine p
              ≡ (if elem p (paths_of a) then none else L.state m p))
    unfolding restore restore_from elem
    restored_lem nothing m = (refl, refl)
    restored_lem (shell prev) m = (refl, restore_shell-state M L p prev m)
    restored_lem (native paths) m =
        restored_native M L (record { applied = native paths; machine = m }) paths p (works m) refl

    -- An override that names the proxy is one that the redirector has set.
    abbrev pub IsKnown : Macos M → Type 0
    IsKnown os = points (L.state os.machine p) ≡ true → elem p (paths_of os.applied) ≡ true

    pub unrouted-IsKnown : (os : Macos M) → points (L.state os.machine p) ≡ false → IsKnown os
    unrouted-IsKnown os off on = absurd cc

    -- what apply has set is recorded
    set_known :
        (ip : IpAddr) (os : Macos M) (paths : List Text)
        → points (L.state os.machine p) ≡ false
        → (apply_native M ip os.machine).0 ≡ ok paths
        → points (L.state (flush_machine M (apply_native M ip os.machine).1) p) ≡ true
        → elem p paths ≡ true
    set_known ip os paths off h on =
        let m1 = (apply_native M ip os.machine).1 in
        let now = flush_machine_lem M L m1 p ∙ apply_native_lem M L ip os.machine paths p h in
        elim (Bool-cases (elem p paths)) [
          | inl t ↦ t
          | inr f ↦ absurd (
              cc (
                ap points (
                      now
                      ∙ ap (λ b. if b then some (display_ip ip ∷ []) else L.state os.machine p) f)
                    ∙ off,
                on,
              ))
        ]

    pub applied_cases :
        (ip : IpAddr) (os : Macos M)
        → points (L.state os.machine p) ≡ false
        → IsKnown (apply M ip os).1
          × ((e : Error)
              → (apply M ip os).0 ≡ err e
              → points (L.state (apply M ip os).1.machine p) ≡ points (L.state os.machine p))
    applied_cases ip os off = elim (Result-cases (apply_native M ip os.machine).0) [
      | inl (paths, h) ↦
          rw (applied_native M L ip os paths h)
            (set_known ip os paths off h, λ e' failed. absurd cc)
      | inr (e, h) ↦ (
        unrouted-IsKnown (apply M ip os).1 (ap points (fallen_back M L p ip os e h) ∙ off),
        λ e' failed. ap points (fallen_back M L p ip os e h),
      )
    ]

    pub restored_off :
        (os : Macos M) → IsKnown os → points (L.state (restore M os).1.machine p) ≡ false
    restored_off os known =
        let (done, back) = restored_lem os.applied os.machine in
        elim (Bool-cases (points (L.state os.machine p))) [
          | inl on ↦ ap points back ∙ rw (known on) refl
          | inr off ↦ ap points back ∙ elim (Bool-cases (elem p (paths_of os.applied))) [
            | inl t ↦ rw t refl
            | inr f ↦ rw f off
          ]
        ]

    pub flushed : (os : Macos M) → L.state (flush_cache M os).1.machine p ≡ L.state os.machine p
    unfolding flush_cache
    flushed os = flush_machine_lem M L os.machine p

    pub flushed-IsKnown : (os : Macos M) → IsKnown os → IsKnown (flush_cache M os).1
    unfolding flush_cache
    flushed-IsKnown os known on = known (sym (ap points (flushed os)) ∙ on)

    abbrev pub macos-Contract : Contract (macos_redirector M)
    macos-Contract = record {
      routed = λ os. points (L.state os.machine p);
      IsSound = IsKnown;
      Applies = λ ip os. Unit;
      Restores = λ os. Unit;
      apply-IsSound = λ ip os s off _. (applied_cases ip os off).0;
      restore-IsSound = λ os s _ _. unrouted-IsKnown (restore M os).1 (restored_off os s);
      flush_cache-IsSound = λ os s. flushed-IsKnown os s;
      routed-apply_err = λ ip os e s off _ failed. (applied_cases ip os off).1 e failed;
      routed-restore = λ os s _ done. restored_off os s;
      routed-flush_cache = λ os s. ap points (flushed os);
    }
