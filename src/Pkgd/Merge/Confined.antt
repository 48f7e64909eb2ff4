-- ===== src/Pkgd/Merge/Confined.antt =====
-- What the unpacking of an image archive may touch.
use a_from_scratch_linux_use.Base.{All, some, ◌≡◌, List, Bytes}
use a_from_scratch_linux_use.Base.Path.{clean}
use a_from_scratch_linux_use.Base.Keeps.{Keeps}
use a_from_scratch_linux_use.Pkgd.Confined.{logged}
use a_from_scratch_linux_use.Pkgd.Touched.{Allowed, Touch, IsEntryName}
use a_from_scratch_linux_use.Base.Path.Up.{IsAbs}
use a_from_scratch_linux_use.Pkgd.Paths.{names}
use a_from_scratch_linux_use.Pkgd.Inspect.{ImageCalls}

module _ {W S H : Type 0} (k : ImageCalls W S H) where
  -- The same calls, with a list of what they touch, the last one first.
  abbrev pub logged_image : ImageCalls (W × List Touch) S H
  logged_image = record {
    open_stream = λ p s. k.open_stream p s.0;
    gunzip = k.gunzip;
    of_bytes = k.of_bytes;
    entries = k.entries;
    archive = k.archive;
    files = λ s. logged (k.files s);
    docker_manifest = k.docker_manifest;
  }

  module _ (root a : Bytes) (found : (s : S) → (k.files s).abs root ≡ some a) (absolute : IsAbs a)
      (listed : (s : S) (p : Bytes) (w : W) (es : List Bytes)
        → (k.files s).read_dir p w ≡ names es
        → All IsEntryName es) where
    abbrev Fine : W × List Touch → Type 0
    Fine s = All (Allowed (clean a)) s.1
