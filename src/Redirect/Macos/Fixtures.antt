-- ===== src/Redirect/Macos/Fixtures.antt =====
-- Machines with one network service to run the macOS redirector on.
use voindns_desktop.Base.{
  ◌≡◌, refl, Bool, true, false, Option, none, some, List, [], ◌∷◌, err, Text, codes, text_eq,
  if◌then◌else◌,
}
use voindns_desktop.Redirect.Macos.{MacosApi, Macos, nothing}
use voindns_desktop.Redirect.Macos.Paths.{StoreLaws}

-- A machine is what the paths are set to; `made` tells whether a session can be created, and no
-- command can be run.
abbrev pub machine_that : Bool → MacosApi
machine_that made = record {
  Machine = Text → Option (List Text);
  build = λ m. (made, m);
  get_keys = λ k m. (some (codes "Setup:/Network/Service/A1" ∷ []), m);
  set_raw = λ q v m. (true, λ p. if text_eq p q then some v else m p);
  remove = λ q m. (true, λ p. if text_eq p q then none else m p);
  output = λ cmd args m. (err (codes "not found"), m);
  debug_args = λ args. [];
}

abbrev pub one_service : MacosApi
one_service = machine_that true

pub other_outcome : {A : Type 0} → true ≡ false → A
other_outcome e = absurd cc

abbrev pub one_service-Laws : StoreLaws one_service
one_service-Laws = record {
  state = λ m p. m p;
  state-build = λ p m. refl;
  state-get_keys = λ k p m. refl;
  state-set_raw_true = λ q v p m e. refl;
  state-set_raw_false = λ q v p m e. other_outcome e;
  state-remove = λ q p m. refl;
  state-output = λ cmd args p m. refl;
}

abbrev pub start : Macos one_service
start = record { applied = nothing; machine = λ p. none }

abbrev pub dns_path : Text
dns_path = codes "State:/Network/Service/A1/DNS"
