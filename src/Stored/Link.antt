-- ===== src/Stored/Link.antt =====
-- LinkLowerDirToRoot of internal/stored/stored.go. What os.ReadDir gives of the lower directory is
-- a tree; the root is in the world.
use a_from_scratch_linux_use.Base.{
  [], none, true, ◌∷◌, some, false, one_of, str, Bool, Option, List, Bytes,
}
use a_from_scratch_linux_use.Base.Path.{join_path}

-- The entries of a directory, none where it cannot be read. An entry is a directory or not.
mutual
  pub data Tree : Type 0 where
    unread_tree : Tree
    read_tree : Entries → Tree

  pub data Entries : Type 0 where
    no_entries : Entries
    entry : Bytes → Kind → Entries → Entries

  pub data Kind : Type 0 where
    plain_entry : Kind
    directory_entry : Tree → Kind

-- What os.Lstat finds.
pub data Found : Type 0 where
  absent lstat_failed found_directory found_other : Found

pub record LinkCalls (W : Type 0) : Type 0 where
  pub lstat : Bytes → W → Found
  pub eval_symlinks : Bytes → W → Option Bytes
  pub make_symlink : Bytes → Bytes → W → W × Bool
  pub make_all : Bytes → W → W × Bool

-- The entries that stay as they are in the root.
abbrev pub skipped_names : List Bytes
skipped_names = str "proc" ∷ str "sys" ∷ str "dev" ∷ str "mnt" ∷ str "run" ∷ []

module _ {W : Type 0} (k : LinkCalls W) where
  abbrev resolved : Bytes → Option Bytes → Bytes
  resolved source none = source
  resolved source (some real) = real

  -- A link to what the source leads to.
  abbrev pub linked : Bytes → Bytes → W → W
  linked source target w = (k.make_symlink (resolved source (k.eval_symlinks source w)) target w).0

  unfoldable mutual
    -- linkDirectoryContents; its error is never looked at.
    pub link_directory_contents : Bytes → Bytes → Tree → W → W
    link_directory_contents source target unread_tree w = w
    link_directory_contents source target (read_tree es) w = link_entries source target es w

    -- The loop of linkDirectoryContents.
    pub link_entries : Bytes → Bytes → Entries → W → W
    link_entries source target no_entries w = w
    link_entries source target (entry name kind es) w = link_entries source target es (
        link_entry (join_path source name) (join_path target name) kind
          (k.lstat (join_path target name) w) w)

    -- One entry, by what is at its place: a missing directory is made and filled, another missing
    -- entry is linked, and a directory that is there is filled.
    pub link_entry : Bytes → Bytes → Kind → Found → W → W
    link_entry source target plain_entry absent w = linked source target w
    link_entry source target (directory_entry tree) absent w =
        link_directory_contents source target tree (k.make_all target w).0
    link_entry source target (directory_entry tree) found_directory w =
        link_directory_contents source target tree w
    link_entry source target plain_entry found_directory w = w
    link_entry source target kind lstat_failed w = w
    link_entry source target kind found_other w = w

  -- One entry of the lower directory, which is linked into the root where it is missing.
  unfoldable pub link_root_entry : Bytes → Bytes → Kind → Found → W → W
  link_root_entry source target kind absent w = linked source target w
  link_root_entry source target (directory_entry tree) found_directory w =
      link_directory_contents source target tree w
  link_root_entry source target plain_entry found_directory w = w
  link_root_entry source target kind lstat_failed w = w
  link_root_entry source target kind found_other w = w

  -- The loop of LinkLowerDirToRoot.
  unfoldable pub link_root_entries : Bytes → Entries → W → W
  link_root_entries lower no_entries w = w
  link_root_entries lower (entry name kind es) w = elim (one_of name skipped_names) [
    | true ↦ link_root_entries lower es w
    | false ↦
        link_root_entries lower es
          (link_root_entry (join_path lower name) (b'/' ∷ name) kind (k.lstat (b'/' ∷ name) w) w)
  ]

  -- LinkLowerDirToRoot; it fails only where the lower directory cannot be read.
  unfoldable pub link_lower_dir_to_root : Bytes → Tree → W → W × Bool
  link_lower_dir_to_root lower unread_tree w = (w, false)
  link_lower_dir_to_root lower (read_tree es) w = (link_root_entries lower es w, true)
