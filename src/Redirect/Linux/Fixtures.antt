-- ===== src/Redirect/Linux/Fixtures.antt =====
-- Machines to run `LinuxRedirector` on.
use voindns_desktop.Base.{
  refl, Option, none, some, false, List, [], ◌∷◌, ◌++◌, ok, Text, codes, text_eq, if◌then◌else◌,
}
use voindns_desktop.Std.Fs.{Node, file, Disk}
use voindns_desktop.Redirect.Linux.{Bus, Method, resolv_conf, resolv_backup, Linux, idle, managed}
use voindns_desktop.Redirect.Linux.Fallback.{IsFallback}

-- A bus that accepts every call and logs it.
abbrev pub logging_bus : Bus
logging_bus = record {
  State = List Method;
  system = λ log. (ok tt, log);
  new_proxy = λ log. (ok tt, log);
  call = λ m log. (ok tt, log ++ m ∷ []);
  if_nametoindex = λ name. ok 2;
}

-- A disk on which these two files are all there is.
abbrev pub disk_of : Option Node → Option Node → Disk
disk_of conf bak = record {
  nodes =
      λ p. if text_eq p resolv_conf then conf else if text_eq p resolv_backup then bak else none;
  readonly = λ p. false;
}

abbrev pub quad9_conf : Text
quad9_conf = codes "nameserver 9.9.9.9\n"

abbrev pub fresh_disk : Disk
fresh_disk = disk_of (some (file quad9_conf)) none

abbrev pub fresh_machine : Linux logging_bus
fresh_machine = record { active = idle; disk = fresh_disk; bus = [] }

pub fresh_machine-IsFallback : IsFallback logging_bus fresh_machine
unfolding managed codes text_eq
fresh_machine-IsFallback = record {
  holds = (quad9_conf, refl, refl, refl);
  writable = (refl, refl);
  no_stub = refl;
}
