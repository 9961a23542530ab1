-- ===== src/Redirect/Macos/Paths.antt =====
-- What the macOS redirector leaves in the dynamic store.
use voindns_desktop.Base.{
  ◌≡◌, refl, ◌∙◌, ap, true, false, Bool-cases, Option, Option-cases, none, some, inl, inr, List, [],
  ◌∷◌, Result-cases, ok, Text, codes, text_eq, if◌then◌else◌, arith, elem,
}
use voindns_desktop.Std.Net.{IpAddr, display_ip}
use voindns_desktop.Redirect.Macos.{
  MacosApi, Macos, native, service_pattern, run, set_states, state_path, some_set, apply_native,
  removes, flush_machine, apply, after_native, restore, restore_from,
}

-- The documented behaviour of the store: `state` is what a path is set to. The commands that
-- are run do not write there.
pub record StoreLaws (M : MacosApi) : Type 0 where
  pub state : M.Machine → Text → Option (List Text)
  pub state-build : (p : Text) (m : M.Machine) → state (M.build m).1 p ≡ state m p
  pub state-get_keys : (k p : Text) (m : M.Machine) → state (M.get_keys k m).1 p ≡ state m p
  pub state-set_raw_true :
      (q : Text) (v : List Text) (p : Text) (m : M.Machine)
      → (M.set_raw q v m).0 ≡ true
      → state (M.set_raw q v m).1 p ≡ (if text_eq p q then some v else state m p)
  pub state-set_raw_false :
      (q : Text) (v : List Text) (p : Text) (m : M.Machine)
      → (M.set_raw q v m).0 ≡ false
      → state (M.set_raw q v m).1 p ≡ state m p
  pub state-remove :
      (q p : Text) (m : M.Machine)
      → state (M.remove q m).1 p ≡ (if text_eq p q then none else state m p)
  pub state-output :
      (cmd : Text) (args : List Text) (p : Text) (m : M.Machine)
      → state (M.output cmd args m).1 p ≡ state m p

module _ (M : MacosApi) (L : StoreLaws M) where
  pub run-state :
      (cmd : Text) (args : List Text) (m : M.Machine) (p : Text)
      → L.state (run M cmd args m).1 p ≡ L.state m p
  unfolding run
  run-state cmd args m p = elim (Result-cases (M.output cmd args m).0) [
    | inl (o, e) ↦ rw e (L.state-output cmd args p m)
    | inr (x, e) ↦ rw e (L.state-output cmd args p m)
  ]

  pub flush_machine_lem : (m : M.Machine) (p : Text) → L.state (flush_machine M m) p ≡ L.state m p
  unfolding flush_machine
  flush_machine_lem m p =
      run-state (codes "killall") (codes "-HUP" ∷ codes "mDNSResponder" ∷ [])
        (run M (codes "dscacheutil") (codes "-flushcache" ∷ []) m).1 p
      ∙ run-state (codes "dscacheutil") (codes "-flushcache" ∷ []) m p

  -- The loop sets exactly the paths that it returns.
  pub set_states_lem :
      (server : Text) (keys : List Text) (m : M.Machine) (p : Text)
      → L.state (set_states M server keys m).1 p
        ≡ (if elem p (set_states M server keys m).0 then some (server ∷ []) else L.state m p)
  unfolding set_states elem
  set_states_lem server [] m p = refl
  set_states_lem server (k ∷ keys) m p =
      let m1 = (M.set_raw (state_path M k) (server ∷ []) m).1 in
      let rest = set_states_lem server keys m1 p in
      elim (Bool-cases (M.set_raw (state_path M k) (server ∷ []) m).0) [
        | inl e ↦ ground (arith, e, L.state-set_raw_true (state_path M k) (server ∷ []) p m e, rest)
        | inr e ↦
            ground (arith, e, L.state-set_raw_false (state_path M k) (server ∷ []) p m e, rest)
      ]

  removes_lem :
      (paths : List Text) (m : M.Machine) (p : Text)
      → L.state (removes M paths m) p ≡ (if elem p paths then none else L.state m p)
  unfolding removes elem
  removes_lem [] m p = refl
  removes_lem (q ∷ paths) m p =
      ground (arith, L.state-remove q p m, removes_lem paths (M.remove q m).1 p)

  some_set_lem : (l paths : List Text) → some_set M l ≡ ok paths → l ≡ paths
  unfolding some_set
  some_set_lem [] paths h = cc
  some_set_lem (x ∷ l) paths h = cc

  pub apply_native_lem :
      (proxy : IpAddr) (m : M.Machine) (paths : List Text) (p : Text)
      → (apply_native M proxy m).0 ≡ ok paths
      → L.state (apply_native M proxy m).1 p
        ≡ (if elem p paths then some (display_ip proxy ∷ []) else L.state m p)
  unfolding apply_native
  apply_native_lem proxy m paths p h = elim (Bool-cases (M.build m).0) [
    | inr e ↦ absurd (ground (arith, e, h))
    | inl e ↦
        let m1 = (M.build m).1 in
        elim (Option-cases (M.get_keys service_pattern m1).0) [
          | inl e1 ↦ absurd (ground (arith, e, e1, h))
          | inr (keys, e1) ↦
              let m2 = (M.get_keys service_pattern m1).1 in
              let l = (set_states M (display_ip proxy) keys m2).0 in
              rw (e, e1)
                (set_states_lem (display_ip proxy) keys m2 p
                  ∙ ap (λ x. if elem p x then some (display_ip proxy ∷ []) else L.state m2 p)
                      (some_set_lem l paths (rw (e, e1) at h))
                  ∙ ap (λ d. if elem p paths then some (display_ip proxy ∷ []) else d)
                      (L.state-get_keys service_pattern p m1 ∙ L.state-build p m))
        ]
  ]

  pub applied_native :
      (proxy : IpAddr) (os : Macos M) (paths : List Text)
      → (apply_native M proxy os.machine).0 ≡ ok paths
      → apply M proxy os ≡ (
        ok tt,
        record {
          applied = native paths;
          machine = flush_machine M (apply_native M proxy os.machine).1;
        },
      )
  unfolding apply
  applied_native proxy os paths h =
      ap (λ r. after_native M proxy os (r, (apply_native M proxy os.machine).1)) h
      ∙ (unfold after_native in refl)

  pub restored_native :
      (os : Macos M) (paths : List Text) (p : Text)
      → (M.build os.machine).0 ≡ true
      → os.applied ≡ native paths
      → ((restore M os).0 ≡ ok tt)
        × (L.state (restore M os).1.machine p
            ≡ (if elem p paths then none else L.state os.machine p))
  unfolding restore restore_from
  restored_native os paths p made e =
      let m1 = (M.build os.machine).1 in
      rw (e, made)
        (
          refl,
          removes_lem paths m1 p
              ∙ ap (λ d. if elem p paths then none else d) (L.state-build p os.machine),
        )
