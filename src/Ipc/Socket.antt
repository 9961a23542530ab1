-- ===== src/Ipc/Socket.antt =====
-- What the programs use of the crate `interprocess` and of the file system to meet each other.
use voindns_desktop.Base.{ℕ, ◌≡◌, Option, some, Bool, true, false, Result, ok, Text, IoError}
use voindns_desktop.Base.Io.{Io}
use voindns_desktop.Ipc.Wire.{Wire}

pub record Socket (W : Wire) : Type 1 where
  pub State : Type 0
  pub Name : Type 0
  pub Listener : Type 0
  -- `to_ns_name::<GenericNamespaced>`, `to_fs_name::<GenericFilePath>`
  pub to_ns_name : Text → Result IoError Name
  pub to_fs_name : Text → Result IoError Name
  -- `ListenerOptions::new().name(n).create_tokio()`
  pub create : Name → Io State IoError Listener
  -- `LocalSocketStream::connect`
  pub connect : Name → Io State IoError (W.Reader × W.Writer)
  -- `Path::parent`
  pub parent : Text → Option Text
  pub create_dir_all : Text → Io State IoError (Unit {0})
  pub remove_file : Text → Io State IoError (Unit {0})
  -- `fs::set_permissions`, with a mode of Unix
  pub set_mode : Text → ℕ → Io State IoError (Unit {0})

-- The mode 0o666.
abbrev pub read_write_for_all : ℕ
read_write_for_all = 438

-- Documented behaviour of Unix sockets, for a process that runs as root: `taken` and `is_dir` tell
-- what is at a path, `has_dir` whether the directory that it lies in exists.
pub record SocketLaws {W : Wire} (H : Socket W) : Type 0 where
  pub taken : H.State → Text → Bool
  pub is_dir : H.State → Text → Bool
  pub has_dir : H.State → Text → Bool
  pub listening : H.State → H.Name → Bool
  pub mode : H.State → Text → ℕ
  pub has_dir-create_dir_all :
      (p d : Text) (s : H.State) → H.parent p ≡ some d → has_dir (H.create_dir_all d s).1 p ≡ true
  pub is_dir-create_dir_all :
      (p d : Text) (s : H.State)
      → H.parent p ≡ some d
      → is_dir s p ≡ false
      → is_dir (H.create_dir_all d s).1 p ≡ false
  pub taken-remove_file :
      (p : Text) (s : H.State) → is_dir s p ≡ false → taken (H.remove_file p s).1 p ≡ false
  pub has_dir-remove_file :
      (p : Text) (s : H.State) → has_dir s p ≡ true → has_dir (H.remove_file p s).1 p ≡ true
  pub create-free :
      (p : Text) (n : H.Name) (s : H.State)
      → H.to_fs_name p ≡ ok n
      → taken s p ≡ false
      → has_dir s p ≡ true
      → (l : H.Listener) × ((H.create n s).0 ≡ ok l)
  pub listening-create :
      (n : H.Name) (s : H.State) (l : H.Listener)
      → (H.create n s).0 ≡ ok l
      → listening (H.create n s).1 n ≡ true
  pub listening-set_mode :
      (p : Text) (m : ℕ) (n : H.Name) (s : H.State)
      → listening s n ≡ true
      → listening (H.set_mode p m s).1 n ≡ true
  -- root may change the mode of the socket of a listener
  pub mode-set_mode :
      (p : Text) (m : ℕ) (n : H.Name) (s : H.State)
      → H.to_fs_name p ≡ ok n
      → listening s n ≡ true
      → mode (H.set_mode p m s).1 p ≡ m
  -- whoever may write to the socket of a listener can connect to it
  pub connect-listening :
      (p : Text) (n : H.Name) (s : H.State)
      → H.to_fs_name p ≡ ok n
      → listening s n ≡ true
      → mode s p ≡ read_write_for_all
      → (c : W.Reader × W.Writer) × ((H.connect n s).0 ≡ ok c)
