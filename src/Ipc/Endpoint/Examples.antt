-- ===== src/Ipc/Endpoint/Examples.antt =====
-- The theorems on the endpoint on a machine where a stale socket was left.
use voindns_desktop.Base.{
  ℕ, ◌==◌, ◌≡◌, refl, none, some, Bool, true, false, ◌&&◌, [], Result, ok, err, IoError, io_other,
  arith, codes, if◌then◌else◌,
}
use voindns_desktop.Std.Platform.{unix}
use voindns_desktop.Ipc.Client as Client
use voindns_desktop.Ipc.Socket.{Socket, SocketLaws, read_write_for_all}
use voindns_desktop.Ipc.Endpoint.{endpoint_name}
use voindns_desktop.Ipc.Endpoint.Meeting.{endpoint_name-agree}
use voindns_desktop.Ipc.Fixtures.{list_wire, closing}
use voindns_desktop.Cli.Endpoint as Cli
use voindns_desktop.Cli.Frame as CliFrame
use voindns_desktop.Gui.Endpoint as Gui
use voindns_desktop.Gui.Frame as GuiFrame

-- A machine with one path in one directory.
record Place : Type 0 where
  pub taken : Bool
  pub has_dir : Bool
  pub listening : Bool
  pub mode : ℕ

abbrev create_at : Place → Result IoError (Unit {0}) × Place
create_at s =
    if s.taken
    then (err (io_other (codes "address in use")), s)
    else if s.has_dir
    then (ok tt, record s { taken = true; listening = true; mode = 384 })
    else (err (io_other (codes "no such directory")), s)

abbrev connect_at : Place → Result IoError (list_wire.Reader × list_wire.Writer) × Place
connect_at s =
    if s.listening && (s.mode == read_write_for_all)
    then (ok (closing [], []), s)
    else (err (io_other (codes "refused")), s)

abbrev one_path : Socket list_wire
one_path = record {
  State = Place;
  Name = Unit;
  Listener = Unit;
  to_ns_name = λ text. ok tt;
  to_fs_name = λ text. ok tt;
  create = λ n. create_at;
  connect = λ n. connect_at;
  parent = λ path. some (codes "/run/voidns");
  create_dir_all = λ d s. (ok tt, record s { has_dir = true });
  remove_file = λ path s. (ok tt, record s { taken = false; listening = false });
  set_mode = λ path m s. (ok tt, record s { mode = m });
}

create_free :
    (s : Place) → s.taken ≡ false → s.has_dir ≡ true → (l : Unit {0}) × ((create_at s).0 ≡ ok l)
create_free s free dir = (tt, rw (free, dir) refl)

listening_create :
    (s : Place) (l : Unit {0}) → (create_at s).0 ≡ ok l → (create_at s).1.listening ≡ true
listening_create s l h = ground (arith, h)

connect_listening :
    (s : Place)
    → s.listening ≡ true
    → s.mode ≡ read_write_for_all
    → (c : list_wire.Reader × list_wire.Writer) × ((connect_at s).0 ≡ ok c)
connect_listening s on shared = ((closing [], []), rw (on, shared) refl)

abbrev one_path-Laws : SocketLaws one_path
one_path-Laws = record {
  taken = λ s p. s.taken;
  is_dir = λ s p. false;
  has_dir = λ s p. s.has_dir;
  listening = λ s n. s.listening;
  mode = λ s p. s.mode;
  has_dir-create_dir_all = λ p d s h. refl;
  is_dir-create_dir_all = λ p d s h plain. refl;
  taken-remove_file = λ p s plain. refl;
  has_dir-remove_file = λ p s h. h;
  create-free = λ p n s h free dir. create_free s free dir;
  listening-create = λ n s l h. listening_create s l h;
  listening-set_mode = λ p m n s h. h;
  mode-set_mode = λ p m n s h on. refl;
  connect-listening = λ p n s h on shared. connect_listening s on shared;
}

abbrev stale : Place
stale = record { taken = true; has_dir = true; listening = false; mode = 384 }

endpoint_name-agree_example :
    (Cli.endpoint_name one_path unix none ≡ endpoint_name one_path unix none)
    × (Gui.endpoint_name one_path unix none ≡ endpoint_name one_path unix none)
endpoint_name-agree_example = endpoint_name-agree one_path unix none
