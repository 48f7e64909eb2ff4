-- ===== src/Stored/Missing.antt =====
-- What LinkLowerDirToRoot changes: the calls are written down, each with what Lstat finds at the
-- path just before it.
use a_from_scratch_linux_use.Base.{false, true, one_of, [], ◌≡◌, ◌∷◌, All, Bool, List, Bytes, refl}
use a_from_scratch_linux_use.Base.Path.{join_path}
use a_from_scratch_linux_use.Stored.Link.{
  skipped_names, link_entry, link_entries, link_lower_dir_to_root, link_root_entries,
  link_directory_contents, link_root_entry, LinkCalls, Tree, Kind, Found, Entries, plain_entry,
  directory_entry, unread_tree, read_tree, no_entries, entry, absent, lstat_failed, found_directory,
  found_other,
}

-- A path that is made or linked, and what was there.
abbrev pub Change : Type 0
Change = Bytes × Found

-- Every path was missing when it was made.
abbrev pub OnlyMissing : List Change → Type 0
OnlyMissing = All (λ c. c.1 ≡ absent)

module _ {W : Type 0} (k : LinkCalls W) where
  -- The same calls, with a list of the changes, the last one first.
  abbrev pub noted_calls : LinkCalls (W × List Change)
  noted_calls = record {
    lstat = λ p s. k.lstat p s.0;
    eval_symlinks = λ p s. k.eval_symlinks p s.0;
    make_symlink =
        λ source p s. let r = k.make_symlink source p s.0 in ((r.0, (p, k.lstat p s.0) ∷ s.1), r.1);
    make_all = λ p s. let r = k.make_all p s.0 in ((r.0, (p, k.lstat p s.0) ∷ s.1), r.1);
  }

  -- A change of the world that keeps the list as it should be.
  abbrev Careful : (W × List Change → W × List Change) → Type 0
  Careful f = (s : W × List Change) → OnlyMissing s.1 → OnlyMissing (f s).1

  mutual
    unfolding link_directory_contents

    contents-Careful :
        (source target : Bytes) (tree : Tree)
        → Careful (link_directory_contents noted_calls source target tree)
    contents-Careful source target unread_tree s h = h
    contents-Careful source target (read_tree es) s h = entries-Careful source target es s h

    entries-Careful :
        (source target : Bytes) (es : Entries) → Careful (link_entries noted_calls source target es)
    entries-Careful source target no_entries s h = h
    entries-Careful source target (entry name kind es) s h =
        entries-Careful source target es
          (link_entry noted_calls (join_path source name) (join_path target name) kind
            (k.lstat (join_path target name) s.0) s)
          (entry-OnlyMissing (join_path source name) (join_path target name) kind
            (k.lstat (join_path target name) s.0) s refl h)

    entry-OnlyMissing :
        (source target : Bytes) (kind : Kind) (found : Found) (s : W × List Change)
        → k.lstat target s.0 ≡ found
        → OnlyMissing s.1
        → OnlyMissing (link_entry noted_calls source target kind found s).1
    entry-OnlyMissing source target plain_entry absent s e h = (e, h)
    entry-OnlyMissing source target (directory_entry tree) absent s e h =
        contents-Careful source target tree (noted_calls.make_all target s).0 (e, h)
    entry-OnlyMissing source target (directory_entry tree) found_directory s e h =
        contents-Careful source target tree s h
    entry-OnlyMissing source target plain_entry found_directory s e h = h
    entry-OnlyMissing source target kind lstat_failed s e h = h
    entry-OnlyMissing source target kind found_other s e h = h

  root_entry-OnlyMissing :
      (source target : Bytes) (kind : Kind) (found : Found) (s : W × List Change)
      → k.lstat target s.0 ≡ found
      → OnlyMissing s.1
      → OnlyMissing (link_root_entry noted_calls source target kind found s).1
  unfolding link_root_entry
  root_entry-OnlyMissing source target kind absent s e h = (e, h)
  root_entry-OnlyMissing source target (directory_entry tree) found_directory s e h =
      contents-Careful source target tree s h
  root_entry-OnlyMissing source target plain_entry found_directory s e h = h
  root_entry-OnlyMissing source target kind lstat_failed s e h = h
  root_entry-OnlyMissing source target kind found_other s e h = h

  abbrev either : Bool → W × List Change → W × List Change → W × List Change
  either b s t = elim b [ true ↦ s | false ↦ t ]

  either-OnlyMissing :
      (b : Bool) (s t : W × List Change)
      → OnlyMissing s.1
      → OnlyMissing t.1
      → OnlyMissing (either b s t).1
  either-OnlyMissing true s t h i = h
  either-OnlyMissing false s t h i = i

  root-Careful : (lower : Bytes) (es : Entries) → Careful (link_root_entries noted_calls lower es)
  unfolding link_root_entries
  root-Careful lower no_entries s h = h
  root-Careful lower (entry name kind es) s h =
      let place = b'/' ∷ name in
      let found = k.lstat place s.0 in
      let next = link_root_entry noted_calls (join_path lower name) place kind found s in
      either-OnlyMissing (one_of name skipped_names) (link_root_entries noted_calls lower es s)
        (link_root_entries noted_calls lower es next) (root-Careful lower es s h)
        (root-Careful lower es next
          (root_entry-OnlyMissing (join_path lower name) place kind found s refl h))

-- Whatever the lower directory and the root hold, and whichever calls fail: LinkLowerDirToRoot makes
-- a directory or a link only at a path where Lstat finds nothing at that moment.
pub link_lower_dir_to_root-OnlyMissing :
    {W : Type 0} (k : LinkCalls W) (lower : Bytes) (tree : Tree) (w : W)
    → OnlyMissing (link_lower_dir_to_root (noted_calls k) lower tree (w, [])).0.1
unfolding link_lower_dir_to_root
link_lower_dir_to_root-OnlyMissing k lower unread_tree w = tt
link_lower_dir_to_root-OnlyMissing k lower (read_tree es) w = root-Careful k lower es (w, []) tt
