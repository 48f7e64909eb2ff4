-- ===== src/Svcd/Config/Reader.antt =====
-- ParseServiceConfig and ParseServiceSpecFromBytes of internal/svcd/config.go, and LoadServiceDir.
use a_from_scratch_linux_use.Base.{
  ◌||◌, Bool, true, Option, none, some, List, [], ◌∷◌, ◌==◌, not, if◌then◌else◌, Bytes, str, is_nil,
  trim_suffix, has_suffix,
}
use a_from_scratch_linux_use.Base.Int.{pos}
use a_from_scratch_linux_use.Base.Scanner.{Scanned, scan_lines}
use a_from_scratch_linux_use.Base.Path.{base, join_path}
use a_from_scratch_linux_use.Svcd.Spec.{ServiceSpec}
use a_from_scratch_linux_use.Svcd.Config.Values.{Floats}
use a_from_scratch_linux_use.Svcd.Config.Lines.{
  cannot_open, cannot_read, empty_file, missing_exec, missing_name, Outcome, parsed, rejected,
  panicked, and_then, parse_lines,
}

-- filepath.Ext of a name without slashes: from its last dot.
unfoldable pub ext : Bytes → Bytes
ext [] = []
ext (c ∷ cs) =
    let rest = ext cs in if not (is_nil rest) then rest else if c == b'.' then c ∷ cs else []

-- The name of a service whose file gives none.
unfoldable pub name_of_path : Bytes → Bytes
unfolding trim_suffix
name_of_path path = let b = base path in trim_suffix b (ext b)

module _ {F : Type 0} (fl : Floats F) where
  abbrev pub default_spec : ServiceSpec F
  default_spec = record {
    name = [];
    exec = [];
    args = [];
    env = [];
    directory = [];
    root_dir = [];
    after = [];
    memory_limit = pos 0;
    cpu_quota = fl.zero_float;
    restart = str "on-failure";
    max_restarts = pos 0;
    seccomp_profile = str "app-default";
    capabilities_add = [];
    capabilities_drop = [];
    no_new_privs = true;
  }

  -- The loop of both readers, and the error of the scanner behind it.
  unfoldable pub read_spec : Scanned → Outcome (ServiceSpec F)
  read_spec scanned =
      and_then (parse_lines fl (record { spec = default_spec; section = [] }) 0 scanned.lines)
        (λ r. if scanned.failed then rejected cannot_read else parsed r.spec)

  abbrev named : Bytes → ServiceSpec F → ServiceSpec F
  named path s = if is_nil s.name then record s { name = name_of_path path } else s

  -- The checks of ParseServiceConfig behind the loop.
  abbrev pub check_file : Bytes → Scanned → ServiceSpec F → Outcome (ServiceSpec F)
  check_file path scanned s =
      if is_nil s.exec
      then rejected (if is_nil scanned.lines then empty_file else missing_exec)
      else parsed (named path s)

  -- ParseServiceConfig of a file that opens with this scan, none if it does not open.
  unfoldable pub parse_service_config : Bytes → Option Scanned → Outcome (ServiceSpec F)
  unfolding read_spec
  parse_service_config path none = rejected cannot_open
  parse_service_config path (some scanned) = and_then (read_spec scanned) (check_file path scanned)

  -- ParseServiceSpecFromBytes
  unfoldable pub parse_service_spec_from_bytes : Bytes → Outcome (ServiceSpec F)
  unfolding read_spec scan_lines
  parse_service_spec_from_bytes bytes = and_then (read_spec (scan_lines [] bytes)) (λ s.
      if is_nil s.exec
      then rejected missing_exec
      else if is_nil s.name
      then rejected missing_name
      else parsed s)

  -- What LoadServiceDir does with the outcome for one file, before the files behind it: an empty
  -- file is left out. (The source finds it by the text "is empty" of the error.)
  abbrev load_one :
      Outcome (ServiceSpec F) → Outcome (List (ServiceSpec F)) → Outcome (List (ServiceSpec F))
  load_one (parsed s) rest = and_then rest (λ ss. parsed (s ∷ ss))
  load_one (rejected empty_file) rest = rest
  load_one (rejected e) rest = rejected e
  load_one panicked rest = panicked

  -- LoadServiceDir over the entries of the directory: their names, whether they are directories,
  -- and what opening them gives. The first error wins.
  unfoldable pub load_service_dir :
      Bytes → List (Bytes × Bool × Option Scanned) → Outcome (List (ServiceSpec F))
  unfolding parse_service_config has_suffix
  load_service_dir dir [] = parsed []
  load_service_dir dir ((name, is_dir, file) ∷ entries) =
      let rest = load_service_dir dir entries in
      if is_dir || not (has_suffix name (str ".toml"))
      then rest
      else load_one (parse_service_config (join_path dir name) file) rest
