-- ===== src/Std/Fs.antt =====
-- `std::fs` on regular files and symbolic links. A link's target is given as the absolute path that
-- it means; directories and permission bits are left out, but for paths that cannot be written.
pub mod Laws
use voindns_desktop.Base.{
  ℕ, zero, suc, Option, none, some, Bool, true, false, Result, ok, err, Text, codes, text_eq,
  if◌then◌else◌,
}
use voindns_desktop.Base.Io.{Io}

pub data Node : Type 0 where
  file : Text → Node
  symlink : Text → Node

pub record Disk : Type 0 where
  pub nodes : Text → Option Node
  pub readonly : Text → Bool

abbrev pub put_node : Text → Option Node → Disk → Disk
put_node p n d = record d { nodes = λ q. if text_eq q p then n else d.nodes q }

-- The path behind at most `hops` links; `none` is ELOOP.
unfoldable pub follow : ℕ → Disk → Text → Option Text
follow zero d p = none
follow (suc hops) d p = elim (d.nodes p) [
  | none ↦ some p
  | some (file content) ↦ some p
  | some (symlink target) ↦ follow hops d target
]

-- Linux follows 40 links.
abbrev pub max_hops : ℕ
max_hops = 40

abbrev pub content_at : Disk → Option Text → Option Text
content_at d none = none
content_at d (some p) = elim (d.nodes p) [
  | none ↦ none
  | some (file content) ↦ some content
  | some (symlink target) ↦ none
]

-- `fs::read_to_string(p).ok()`
unfoldable pub read : Text → Disk → Option Text
read p d = content_at d (follow max_hops d p)

-- `Path::exists`
unfoldable pub exists : Text → Disk → Bool
unfolding read
exists p d = elim (read p d) [ none ↦ false | some content ↦ true ]

abbrev pub not_found : Text
not_found = codes "No such file or directory (os error 2)"

abbrev pub denied : Text
denied = codes "Permission denied (os error 13)"

abbrev pub looped : Text
looped = codes "Too many levels of symbolic links (os error 40)"

write_at : Option Text → Text → Io Disk Text Unit
write_at none content d = (err looped, d)
write_at (some p) content d =
    if d.readonly p then (err denied, d) else (ok tt, put_node p (some (file content)) d)

-- `fs::write`: through links, creating the file if it is missing
unfoldable pub write : Text → Text → Io Disk Text Unit
unfolding write_at
write p content d = write_at (follow max_hops d p) content d

copy_content : Option Text → Text → Io Disk Text Unit
copy_content none to d = (err not_found, d)
copy_content (some content) to d = write to content d

-- `fs::copy`: the content, through links at both ends
unfoldable pub copy : Text → Text → Io Disk Text Unit
unfolding copy_content write read
copy from to d = copy_content (read from d) to d

-- `fs::remove_file`: the link itself, if it is one
unfoldable pub remove_file : Text → Io Disk Text Unit
remove_file p d = elim (d.nodes p) [
  | none ↦ (err not_found, d)
  | some n ↦ if d.readonly p then (err denied, d) else (ok tt, put_node p none d)
]
