-- ===== src/Redirect/Macos/Apart.antt =====
-- networksetup keeps off the dynamic store: what a failed native path and the fallback leave of an
-- override.
use voindns_desktop.Base.{
  ◌≡◌, refl, ◌∙◌, ap, Bool-cases, Option-cases, some, inl, inr, List, [], ◌∷◌, Result, Result-cases,
  ok, err, Error, Text, codes, if◌then◌else◌, elem,
}
use voindns_desktop.Std.Net.{IpAddr, display_ip}
use voindns_desktop.Std.Str.{is_empty}
use voindns_desktop.Redirect.Macos.{
  MacosApi, Macos, service_pattern, run, set_states, some_set, apply_native, network_services,
  current_dns, set_services, on_services, apply_shell, restore_shell, flush_cache, apply,
  after_native, after_shell,
}
use voindns_desktop.Redirect.Macos.Paths.{StoreLaws, run-state, flush_machine_lem, set_states_lem}

module _ (M : MacosApi) (L : StoreLaws M) (p : Text) where
  current_dns-state : (svc : Text) (m : M.Machine) → L.state (current_dns M svc m).1 p ≡ L.state m p
  unfolding current_dns
  current_dns-state svc m =
      run-state M L (codes "networksetup") (codes "-getdnsservers" ∷ svc ∷ []) m p

  set_services-state :
      (server : Text) (services : List Text) (m : M.Machine)
      → L.state (set_services M server services m).1 p ≡ L.state m p
  unfolding set_services
  set_services-state server [] m = refl
  set_services-state server (svc ∷ services) m =
      let m1 = (current_dns M svc m).1 in
      let args = codes "-setdnsservers" ∷ svc ∷ server ∷ [] in
      let m2 = (run M (codes "networksetup") args m1).1 in
      let before = run-state M L (codes "networksetup") args m1 p ∙ current_dns-state svc m in
      let rest = set_services-state server services m2 in
      elim (Result-cases (run M (codes "networksetup") args m1).0) [
        | inr (e, h) ↦ rw h before
        | inl (out, h) ↦ elim (Result-cases (set_services M server services m2).0) [
          | inr (e, h1) ↦ rw (h, h1) (rest ∙ before)
          | inl (saved, h1) ↦ rw (h, h1) (rest ∙ before)
        ]
      ]

  on_services-state :
      (server : Text) (services : List Text) (m : M.Machine)
      → L.state (on_services M server services m).1 p ≡ L.state m p
  unfolding on_services
  on_services-state server [] m = refl
  on_services-state server (svc ∷ services) m = set_services-state server (svc ∷ services) m

  apply_shell-state :
      (proxy : IpAddr) (m : M.Machine) → L.state (apply_shell M proxy m).1 p ≡ L.state m p
  unfolding apply_shell network_services
  apply_shell-state proxy m =
      let args = codes "-listallnetworkservices" ∷ [] in
      let listed = run-state M L (codes "networksetup") args m p in
      elim (Result-cases (run M (codes "networksetup") args m).0) [
        | inr (e, h) ↦ rw h listed
        | inl (out, h) ↦ rw h (
            on_services-state (display_ip proxy) _ (run M (codes "networksetup") args m).1 ∙ listed)
      ]

  some_set_err : (l : List Text) (e : Error) → some_set M l ≡ err e → l ≡ []
  unfolding some_set
  some_set_err [] e h = refl
  some_set_err (x ∷ l) e h = absurd cc

  apply_native_err :
      (proxy : IpAddr) (m : M.Machine) (e : Error)
      → (apply_native M proxy m).0 ≡ err e
      → L.state (apply_native M proxy m).1 p ≡ L.state m p
  unfolding apply_native elem
  apply_native_err proxy m e h = elim (Bool-cases (M.build m).0) [
    | inr f ↦ rw f (L.state-build p m)
    | inl t ↦
        let m1 = (M.build m).1 in
        elim (Option-cases (M.get_keys service_pattern m1).0) [
          | inl g ↦ rw (t, g) (L.state-get_keys service_pattern p m1 ∙ L.state-build p m)
          | inr (keys, g) ↦
              let m2 = (M.get_keys service_pattern m1).1 in
              let l = (set_states M (display_ip proxy) keys m2).0 in
              rw (t, g)
                (set_states_lem M L (display_ip proxy) keys m2 p
                  ∙ ap (λ x. if elem p x then some (display_ip proxy ∷ []) else L.state m2 p)
                      (some_set_err l e (rw (t, g) at h))
                  ∙ L.state-get_keys service_pattern p m1
                  ∙ L.state-build p m)
        ]
  ]

  after_shell-state :
      (os : Macos M) (r : Result Error (List (Text × List Text)) × M.Machine)
      → L.state (after_shell M os r).1.machine p ≡ L.state r.1 p
  unfolding after_shell flush_cache
  after_shell-state os (ok saved, m) = flush_machine_lem M L m p
  after_shell-state os (err e, m) = refl

  -- an apply whose native path failed
  pub fallen_back :
      (proxy : IpAddr) (os : Macos M) (e : Error)
      → (apply_native M proxy os.machine).0 ≡ err e
      → L.state (apply M proxy os).1.machine p ≡ L.state os.machine p
  unfolding apply
  fallen_back proxy os e h =
      let m1 = (apply_native M proxy os.machine).1 in
      ap (λ r. L.state (after_native M proxy os (r, m1)).1.machine p) h
      ∙ (unfold after_native in after_shell-state os (apply_shell M proxy m1))
      ∙ apply_shell-state proxy m1
      ∙ apply_native_err proxy os.machine e h

  pub restore_shell-state :
      (prev : List (Text × List Text)) (m : M.Machine)
      → L.state (restore_shell M prev m) p ≡ L.state m p
  unfolding restore_shell
  restore_shell-state [] m = refl
  restore_shell-state ((svc, servers) ∷ prev) m =
      let args =
        codes "-setdnsservers" ∷ svc ∷ (if is_empty servers then codes "Empty" ∷ [] else servers) in
      restore_shell-state prev (run M (codes "networksetup") args m).1
      ∙ run-state M L (codes "networksetup") args m p
