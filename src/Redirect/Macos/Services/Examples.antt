-- ===== src/Redirect/Macos/Services/Examples.antt =====
-- The networksetup path on a machine with one service.
use voindns_desktop.Base.{
  ◌≡◌, refl, ◌∙◌, ap, true, false, Bool-cases, inl, inr, List, [], ◌∷◌, Result, ok, Text, codes,
  text_eq, if◌then◌else◌, none, elem,
}
use voindns_desktop.Std.IpParse.{parse_ip}
use voindns_desktop.Std.Str.{contains, starts_with, is_empty, trim, trim_start_by}
use voindns_desktop.Std.Str.Check.{is_line, is_line-IsLine}
use voindns_desktop.Std.Str.Split.{unlines, IsLine}
use voindns_desktop.Redirect.Parse.{is_ip}
use voindns_desktop.Redirect.Parse.Names.{Service, service_line, IsService}
use voindns_desktop.Redirect.Windows.{Output}
use voindns_desktop.Redirect.Macos.{MacosApi, Macos, nothing}
use voindns_desktop.Redirect.Macos.Shell.{printable, printable_lines, Printed, NetworkSetup}

abbrev Setting : Type 0
Setting = Text → List Text

-- "Empty" is no list of servers.
abbrev accepted : List Text → List Text
accepted ss = if printable ss then ss else []

-- what the machine shows of a service's servers
abbrev shown : Setting → Text → List Text
shown m t = accepted (m t)

abbrev print : List Text → Text
print [] = codes "There aren't any DNS Servers set on Wi-Fi."
print (s ∷ ss) = unlines (s ∷ ss)

abbrev wifi : Service
wifi = record { stars = 0; name = codes "Wi-Fi" }

abbrev first_line : Text
first_line = codes "An asterisk (*) denotes that a network service is disabled."

abbrev saying : Text → Output
saying text = record { success = true; stdout = text; stderr = [] }

abbrev answer : List Text → Setting → Result Text Output × Setting
answer [] m = (ok (saying []), m)
answer (verb ∷ []) m = (ok (saying (unlines (first_line ∷ service_line wifi ∷ []))), m)
answer (verb ∷ svc ∷ []) m = (ok (saying (print (shown m svc))), m)
answer (verb ∷ svc ∷ s ∷ ss) m =
    (ok (saying []), λ t. if text_eq t svc then accepted (s ∷ ss) else m t)

abbrev shell_only : MacosApi
shell_only = record {
  Machine = Setting;
  build = λ m. (false, m);
  get_keys = λ k m. (none, m);
  set_raw = λ q v m. (false, m);
  remove = λ q m. (false, m);
  output = λ cmd args m. answer args m;
  debug_args = λ args. [];
}

printable-Printed : (ss : List Text) → printable ss ≡ true → Printed ss (print ss)
unfolding contains starts_with codes
printable-Printed [] h = refl
printable-Printed (s ∷ ss) h = (refl, h)

accepted_lem : (ss : List Text) → printable ss ≡ true → accepted ss ≡ ss
accepted_lem ss h = rw h refl

none_printable : printable [] ≡ true
unfolding printable printable_lines contains starts_with unlines codes
none_printable = refl

print-Printed : (ss : List Text) → Printed (accepted ss) (print (accepted ss))
print-Printed ss = elim (Bool-cases (printable ss)) [
  | inl h ↦ rw h (printable-Printed ss h)
  | inr h ↦ rw h (printable-Printed [] none_printable)
]

shown_set :
    (svc s : Text) (ss : List Text) (m : Setting) (t : Text)
    → printable (s ∷ ss) ≡ true
    → shown (answer (codes "-setdnsservers" ∷ svc ∷ s ∷ ss) m).1 t
      ≡ (if text_eq t svc then s ∷ ss else shown m t)
shown_set svc s ss m t h = elim (Bool-cases (text_eq t svc)) [
  | inl e ↦ rw e (ap accepted (accepted_lem (s ∷ ss) h) ∙ accepted_lem (s ∷ ss) h)
  | inr e ↦ rw e refl
]

empty_unprintable : printable (codes "Empty" ∷ []) ≡ false
unfolding printable printable_lines is_line trim is_ip codes contains starts_with unlines text_eq
    parse_ip
empty_unprintable = refl

shown_set_empty :
    (svc : Text) (m : Setting) (t : Text)
    → shown (answer (codes "-setdnsservers" ∷ svc ∷ codes "Empty" ∷ []) m).1 t
      ≡ (if text_eq t svc then [] else shown m t)
shown_set_empty svc m t = elim (Bool-cases (text_eq t svc)) [
  | inl e ↦ rw (e, empty_unprintable) (accepted_lem [] none_printable)
  | inr e ↦ rw e refl
]

wifi-IsService : IsService wifi
unfolding is_empty trim_start_by trim is_line codes
wifi-IsService = (refl, refl, refl, is_line-IsLine (service_line wifi) refl)

first_line-IsLine : IsLine first_line
unfolding is_line codes
first_line-IsLine = is_line-IsLine first_line refl

shell_only-Setup : NetworkSetup shell_only
unfolding elem
shell_only-Setup = record {
  header = first_line;
  listed = wifi ∷ [];
  header-IsLine = first_line-IsLine;
  listed-IsService = (wifi-IsService, tt);
  distinct = (refl, tt);
  servers = shown;
  list = λ m. (saying (unlines (first_line ∷ service_line wifi ∷ [])), refl, refl, refl);
  servers-list = λ m t. refl;
  get = λ svc m. (saying (print (shown m svc)), refl, refl, print-Printed (m svc));
  servers-get = λ svc m t. refl;
  set = λ svc s ss m h. (saying [], refl, refl, tt);
  servers-set = λ svc s ss m t h. shown_set svc s ss m t h;
  servers-set_empty = λ svc m t. shown_set_empty svc m t;
  servers-build = λ m t. refl;
  servers-get_keys = λ k m t. refl;
  servers-set_raw = λ q v m t. refl;
  servers-dscacheutil = λ m t. refl;
  servers-killall = λ m t. refl;
}

abbrev start : Macos shell_only
start = record { applied = nothing; machine = λ t. [] }
