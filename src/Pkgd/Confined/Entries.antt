-- ===== src/Pkgd/Confined/Entries.antt =====
-- The entries of a layer, one after the other.
use a_from_scratch_linux_use.Pkgd.Confined.{IsEntryName, names, IsAbs, Allowed, Touch}
use a_from_scratch_linux_use.Base.Path.{clean}
use a_from_scratch_linux_use.Pkgd.Paths.{Files}
use a_from_scratch_linux_use.Base.{All, some, ◌≡◌, List, Bytes}
use a_from_scratch_linux_use.Base.Keeps.{Keeps}
use a_from_scratch_linux_use.Base.Io.{Io}

module _ {W H : Type 0} (k : Files W H) (dest a : Bytes) (found : k.abs dest ≡ some a)
    (absolute : IsAbs a)
    (listed : (p : Bytes) (w : W) (es : List Bytes)
      → k.read_dir p w ≡ names es
      → All IsEntryName es) where
  abbrev Fine : W × List Touch → Type 0
  Fine s = All (Allowed (clean a)) s.1
