-- ===== src/Pkgd/Inspect.antt =====
-- internal/pkgd/oci.go: the manifest of an image archive. What os.Open, gzip.NewReader and
-- bytes.NewReader give is a stream `S`, which a tar.Reader turns into the entries of an image or
-- of a layer; JSON is a parameter.
use a_from_scratch_linux_use.Base.{
  true, [], ◌||◌, false, str_eq, ◌∷◌, str, none, some, if◌then◌else◌, has_suffix, Bool, Option,
  List, Bytes,
}
use a_from_scratch_linux_use.Base.Path.{clean}
use a_from_scratch_linux_use.Base.Io.{Result, ok, err}
use a_from_scratch_linux_use.Pkgd.Paths.{Files}
use a_from_scratch_linux_use.Pkgd.Extract.{Archive}

pub record DockerManifestEntry : Type 0 where
  pub config : Bytes
  pub repo_tags : List Bytes
  pub layers : List Bytes

pub record OciArchiveInfo : Type 0 where
  pub repo_tags : List Bytes
  pub layer_paths : List Bytes

-- The entries of an image: the name, and the body, none where it cannot be read.
pub data ImageEntries : Type 0 where
  image_end : ImageEntries
  image_broken : ImageEntries
  image_entry : Bytes → Option Bytes → ImageEntries → ImageEntries

-- `files` are the calls of package os while a layer is extracted from the stream.
pub record ImageCalls (W S H : Type 0) : Type 0 where
  pub open_stream : Bytes → W → Option S
  pub gunzip : S → Option S
  pub of_bytes : Bytes → S
  pub entries : S → ImageEntries
  pub archive : S → Archive
  pub files : S → Files W H
  pub docker_manifest : Bytes → Option (List DockerManifestEntry)

pub data ArchiveError : Type 0 where
  archive_not_opened archive_not_gzip archive_not_tar : Bytes → ArchiveError
  manifest_unread : ArchiveError
  no_manifest : Bytes → ArchiveError

abbrev pub is_gzip_name : Bytes → Bool
is_gzip_name path = has_suffix path (str ".gz") || has_suffix path (str ".tgz")

-- A manifest that is no JSON, or empty, is passed over.
abbrev pub manifest_info : Option (List DockerManifestEntry) → Option OciArchiveInfo
manifest_info none = none
manifest_info (some []) = none
manifest_info (some (m ∷ ms)) = some (record { repo_tags = m.repo_tags; layer_paths = m.layers })

module _ {W S H : Type 0} (k : ImageCalls W S H) where
  abbrev pub unzipped : {E : Type 0} → Bool → E → S → Result E S
  unzipped false e s = ok s
  unzipped true e s = elim (k.gunzip s) [ none ↦ err e | some t ↦ ok t ]

  -- The file of an archive, uncompressed where its name says so.
  abbrev pub open_tar : Bytes → W → Result ArchiveError S
  open_tar path w = elim (k.open_stream path w) [
    | none ↦ err (archive_not_opened path)
    | some s ↦ unzipped (is_gzip_name path) (archive_not_gzip path) s
  ]

  abbrev or_further :
      Option OciArchiveInfo
      → Result ArchiveError OciArchiveInfo
      → Result ArchiveError OciArchiveInfo
  or_further (some info) rest = ok info
  or_further none rest = rest

  -- What the manifest.json of the archive gives, before the entries behind it.
  abbrev manifest_body :
      Option Bytes → Result ArchiveError OciArchiveInfo → Result ArchiveError OciArchiveInfo
  manifest_body none rest = err manifest_unread
  manifest_body (some bytes) rest = or_further (manifest_info (k.docker_manifest bytes)) rest

  -- The loop of InspectOCIArchive.
  unfoldable pub find_manifest : Bytes → ImageEntries → Result ArchiveError OciArchiveInfo
  find_manifest path image_end = err (no_manifest path)
  find_manifest path image_broken = err (archive_not_tar path)
  find_manifest path (image_entry name body rest) =
      let further = find_manifest path rest in
      if str_eq (clean name) (str "manifest.json") then manifest_body body further else further

  -- InspectOCIArchive
  unfoldable pub inspect_oci_archive : Bytes → W → Result ArchiveError OciArchiveInfo
  inspect_oci_archive path w = elim (open_tar path w) [
    | err e ↦ err e
    | ok s ↦ find_manifest path (k.entries s)
  ]
