-- ===== src/Std/Fs/Laws.antt =====
-- The file operations on a path that is no link.
use voindns_desktop.Base.{ℕ, suc, ◌≡◌, Option, none, some, true, false, ok, Text}
use voindns_desktop.Std.Fs.{
  Node, file, symlink, Disk, put_node, content_at, follow, read, exists, write, copy, remove_file,
}

-- Nothing, or a regular file, stands at the path.
abbrev pub IsPlain : Option Node → Type 0
IsPlain none = Unit
IsPlain (some (file content)) = Unit
IsPlain (some (symlink target)) = ⊥

abbrev pub content_of : Option Node → Option Text
content_of none = none
content_of (some (file content)) = some content
content_of (some (symlink target)) = none

module _ (d : Disk) (p : Text) where
  follow_plain :
      (n : Option Node) (hops : ℕ) → d.nodes p ≡ n → IsPlain n → follow (suc hops) d p ≡ some p
  unfolding follow
  follow_plain none hops e h = rw (e, follow)
  follow_plain (some (file content)) hops e h = rw (e, follow)
  follow_plain (some (symlink target)) hops e h = absurd h

  pub read_plain : (n : Option Node) → d.nodes p ≡ n → IsPlain n → read p d ≡ content_of n
  unfolding read
  read_plain none e h = rw (follow_plain none 39 e h, e, content_at)
  read_plain (some (file content)) e h =
      rw (follow_plain (some (file content)) 39 e h, e, content_at)
  read_plain (some (symlink target)) e h = absurd h

  pub exists_of_read : (c : Text) → read p d ≡ some c → exists p d ≡ true
  unfolding exists
  exists_of_read c h = rw (h, exists)

  pub exists_of_none : read p d ≡ none → exists p d ≡ false
  unfolding exists
  exists_of_none h = rw (h, exists)

  pub write_plain :
      (n : Option Node) (content : Text)
      → d.nodes p ≡ n
      → IsPlain n
      → d.readonly p ≡ false
      → write p content d ≡ (ok tt, put_node p (some (file content)) d)
  unfolding write
  write_plain n content e h w = rw (follow_plain n 39 e h, w)

  pub remove_lem :
      (n : Node)
      → d.nodes p ≡ some n
      → d.readonly p ≡ false
      → remove_file p d ≡ (ok tt, put_node p none d)
  unfolding remove_file
  remove_lem n e w = rw (e, remove_file, w)

  pub copy_plain :
      (from content : Text) (n : Option Node)
      → read from d ≡ some content
      → d.nodes p ≡ n
      → IsPlain n
      → d.readonly p ≡ false
      → copy from p d ≡ (ok tt, put_node p (some (file content)) d)
  unfolding copy
  copy_plain from content n got e h w = rw (got, copy) (write_plain n content e h w)
