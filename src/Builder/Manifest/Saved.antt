-- ===== src/Builder/Manifest/Saved.antt =====
-- SaveManifest and LoadManifest of internal/builder/manifest.go.
use a_from_scratch_linux_use.Base.{none, some, Bool, Option, Bytes}
use a_from_scratch_linux_use.Base.Io.{Io, Result, ok, err, call, or_raise, ◌>>=◌}
use a_from_scratch_linux_use.Builder.Manifest.{calculate_combined_build_hash, BuildManifest}

-- What SaveManifest and LoadManifest use: JSON, and a file that is written and read.
pub record ManifestFiles (W : Type 0) : Type 0 where
  pub marshal : BuildManifest → Option Bytes
  pub unmarshal : Bytes → Option BuildManifest
  pub write_file : Bytes → Bytes → W → W × Bool
  pub read_file : Bytes → W → Option Bytes

pub data ManifestError : Type 0 where
  not_encoded : ManifestError
  not_written not_read not_parsed : Bytes → ManifestError

module _ {W : Type 0} (sha256_hex : Bytes → Bytes) (k : ManifestFiles W) where
  -- The manifest that SaveManifest leaves in its argument, whatever becomes of the file.
  unfoldable pub hashed_manifest : BuildManifest → BuildManifest
  hashed_manifest m = record m { combined_build_hash = calculate_combined_build_hash sha256_hex m }

  -- SaveManifest
  unfoldable pub save_manifest : BuildManifest → Bytes → Io W ManifestError (Unit {0})
  save_manifest m path = or_raise (k.marshal (hashed_manifest m)) not_encoded >>= λ bytes.
      call (k.write_file path bytes) (not_written path)

  abbrev parsed_manifest : Bytes → Option Bytes → Result ManifestError BuildManifest
  parsed_manifest path none = err (not_read path)
  parsed_manifest path (some bytes) = elim (k.unmarshal bytes) [
    | none ↦ err (not_parsed path)
    | some m ↦ ok m
  ]

  -- LoadManifest
  unfoldable pub load_manifest : Bytes → W → Result ManifestError BuildManifest
  load_manifest path w = parsed_manifest path (k.read_file path w)
