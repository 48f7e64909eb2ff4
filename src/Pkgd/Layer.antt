-- ===== src/Pkgd/Layer.antt =====
-- internal/pkgd/layer.go: the file that lists the layers of an image, and its reader. What %q
-- prints, JSON and the calls of package os are parameters.
use a_from_scratch_linux_use.Base.{
  drop, ◌-◌, take, length, false, cut, ltb, true, has_suffix, is_nil, trim_space, str_eq, ◌||◌,
  ◌&&◌, none, ◌∷◌, ◌++◌, some, if◌then◌else◌, has_prefix, [], str, ℕ, Bool, Option, List, Bytes,
}
use a_from_scratch_linux_use.Base.Path.{dir}
use a_from_scratch_linux_use.Base.Scanner.{text_of, Scanned}
use a_from_scratch_linux_use.Base.Io.{Io, call, raise, ◌>>=◌, ◌>>◌}
pub mod Fields
pub mod RoundTrip
pub mod Saved
mod Tests

abbrev pub layer_type_oci_archive : Bytes
layer_type_oci_archive = str "oci-archive"

abbrev pub layer_type_tarball : Bytes
layer_type_tarball = str "tarball"

abbrev pub layer_type_directory : Bytes
layer_type_directory = str "directory"

abbrev pub layer_type_binary : Bytes
layer_type_binary = str "binary"

pub record LayerSpec : Type 0 where
  pub name : Bytes
  pub kind : Bytes
  pub path : Bytes
  pub target_dir : Bytes
  pub sha256 : Bytes

pub record LayerConfig : Type 0 where
  pub layers : List LayerSpec

-- &LayerSpec{Type: LayerTypeOCIArchive}
abbrev pub fresh_layer : LayerSpec
fresh_layer = record {
  name = [];
  kind = layer_type_oci_archive;
  path = [];
  target_dir = [];
  sha256 = [];
}

pub data LayerFileError : Type 0 where
  unread : Bytes → LayerFileError
  unopened : Bytes → LayerFileError
  unscanned : Bytes → LayerFileError

-- What the reader gives; `crashed` where Go stops the program.
pub data Loaded : Type 0 where
  loaded : LayerConfig → Loaded
  refused : LayerFileError → Loaded
  crashed : Loaded

abbrev surrounded : ℕ → Bytes → Bool
surrounded c s = has_prefix s (c ∷ []) && has_suffix s (c ∷ [])

-- unquote; none is the panic of s[1 : len(s)-1] where s is one quote.
unfoldable pub unquote_value : Bytes → Option Bytes
unquote_value s =
    if surrounded 34 s || surrounded 39 s
    then if ltb (length s) 2 then none else some (take (length s - 2) (drop 1 s))
    else some s

-- The switch over the key of a line.
unfoldable pub set_field : LayerSpec → Bytes → Bytes → LayerSpec
set_field l key val =
    if str_eq key (str "name")
    then record l { name = val }
    else if str_eq key (str "type")
    then record l { kind = val }
    else if str_eq key (str "path")
    then record l { path = val }
    else if str_eq key (str "target_dir")
    then record l { target_dir = val }
    else if str_eq key (str "sha256")
    then record l { sha256 = val }
    else l

-- The variables of the loop: the layers that are complete, and the one that is read.
pub record Layers : Type 0 where
  pub done : List LayerSpec
  pub current : Option LayerSpec

-- cfg.Layers with the layer that is read behind them, if there is one.
abbrev pub with_current : List LayerSpec → Option LayerSpec → List LayerSpec
with_current done none = done
with_current done (some l) = done ++ (l ∷ [])

abbrev pub layer_or_fresh : Option LayerSpec → LayerSpec
layer_or_fresh none = fresh_layer
layer_or_fresh (some l) = l

abbrev assigned : Layers → Bytes → Option Bytes → Option Layers
assigned s key none = none
assigned s key (some val) =
    some (record s { current = some (set_field (layer_or_fresh s.current) key val) })

abbrev pub layer_pair : Layers → Option (Bytes × Bytes) → Option Layers
layer_pair s none = some s
layer_pair s (some (key, val)) = assigned s (trim_space key) (unquote_value (trim_space val))

-- One turn of the loop of parseLayerTOML, for a line without the blanks around it.
unfoldable pub parse_layer_line : Layers → Bytes → Option Layers
parse_layer_line s line =
    if is_nil line || has_prefix line (str "#")
    then some s
    else if str_eq line (str "[[layer]]") || str_eq line (str "[layer]")
    then some (record { done = with_current s.done s.current; current = some fresh_layer })
    else layer_pair s (cut b'=' line)

-- The loop of parseLayerTOML.
unfoldable pub parse_layer_lines : Layers → List Bytes → Option Layers
parse_layer_lines s [] = some s
parse_layer_lines s (line ∷ lines) = elim (parse_layer_line s (trim_space line)) [
  | none ↦ none
  | some t ↦ parse_layer_lines t lines
]

-- The layers behind the loop: a last layer without a name is left out.
abbrev pub complete : Layers → List LayerSpec
complete s = elim s.current [
  | none ↦ s.done
  | some l ↦ if is_nil l.name then s.done else s.done ++ (l ∷ [])
]

abbrev pub finished : Bytes → Bool → Option Layers → Loaded
finished path failed none = crashed
finished path true (some s) = refused (unscanned path)
finished path false (some s) = loaded (record { layers = complete s })

-- parseLayerTOML of a file that opens with this scan, none if it does not open.
unfoldable pub parse_layer_toml : Bytes → Option Scanned → Loaded
parse_layer_toml path none = refused (unopened path)
parse_layer_toml path (some scanned) =
    finished path scanned.failed
      (parse_layer_lines (record { done = []; current = none }) scanned.lines)

-- What os.ReadFile gives.
pub data FileData : Type 0 where
  not_exist : FileData
  no_data : FileData
  contents : Bytes → FileData

-- `open_scanner` is os.Open with a bufio.Scanner over the file. `quote` is what %q prints.
pub record LayerFiles (W : Type 0) : Type 0 where
  pub read_file : Bytes → W → FileData
  pub open_scanner : Bytes → W → Option Scanned
  pub mkdir_all : Bytes → W → W × Bool
  pub write_file : Bytes → Bytes → W → W × Bool
  pub json_unmarshal : Bytes → Option LayerConfig
  pub json_marshal : LayerConfig → Option Bytes
  pub quote : Bytes → Bytes

pub data LayerSaveError : Type 0 where
  not_marshalled not_created not_written : LayerSaveError

-- The first line that SaveLayerConfig writes; its dash has three bytes.
abbrev pub layer_heading : Bytes
layer_heading = str "# Karim MicroVM OS " ++ (226 ∷ 128 ∷ 148 ∷ str " Layer Specification Config")

-- A nil configuration is saved as an empty one.
abbrev pub config_or_empty : Option LayerConfig → LayerConfig
config_or_empty none = record { layers = [] }
config_or_empty (some cfg) = cfg

module _ {W : Type 0} (k : LayerFiles W) where
  abbrev unmarshalled : Bytes → W → Option LayerConfig → Loaded
  unmarshalled path w none = parse_layer_toml path (k.open_scanner path w)
  unmarshalled path w (some cfg) = loaded cfg

  abbrev pub load_data : Bytes → W → FileData → Loaded
  load_data path w not_exist = loaded (record { layers = [] })
  load_data path w no_data = refused (unread path)
  load_data path w (contents bytes) =
      if has_suffix path (str ".json") || has_prefix (trim_space bytes) (str "{")
      then unmarshalled path w (k.json_unmarshal bytes)
      else parse_layer_toml path (k.open_scanner path w)

  -- LoadLayerConfig
  unfoldable pub load_layer_config : Bytes → W → Loaded
  load_layer_config path w = load_data path w (k.read_file path w)

  -- fmt.Sprintf("key = %q\n", value)
  abbrev pub field_line : Bytes → Bytes → Bytes
  field_line key val = key ++ (str " = " ++ k.quote val)

  abbrev pub optional_line : Bytes → Bytes → List Bytes
  optional_line key val = if is_nil val then [] else field_line key val ∷ []

  -- The lines of one layer, the empty one behind it included.
  unfoldable pub spec_lines : LayerSpec → List Bytes
  spec_lines l =
      str "[[layer]]"
      ∷ field_line (str "name") l.name
      ∷ field_line (str "type") l.kind
      ∷ field_line (str "path") l.path
      ∷ (optional_line (str "target_dir") l.target_dir
          ++ (optional_line (str "sha256") l.sha256 ++ ([] ∷ [])))

  abbrev pub all_spec_lines : List LayerSpec → List Bytes
  all_spec_lines [] = []
  all_spec_lines (l ∷ ls) = spec_lines l ++ all_spec_lines ls

  -- What SaveLayerConfig writes that is not JSON.
  unfoldable pub layer_text : LayerConfig → Bytes
  layer_text cfg = text_of (layer_heading ∷ [] ∷ all_spec_lines cfg.layers)

  abbrev pub written_json : Bytes → Option Bytes → Io W LayerSaveError (Unit {0})
  written_json path none = raise not_marshalled
  written_json path (some bytes) = call (k.write_file path bytes) not_written

  -- SaveLayerConfig of a file that is not JSON.
  abbrev pub save_toml : LayerConfig → Bytes → Io W LayerSaveError (Unit {0})
  save_toml cfg path = do
    call (k.mkdir_all (dir path)) not_created
    call (k.write_file path (layer_text cfg)) not_written

  -- SaveLayerConfig
  unfoldable pub save_layer_config : Option LayerConfig → Bytes → Io W LayerSaveError (Unit {0})
  save_layer_config given path =
      let cfg = config_or_empty given in
      if has_suffix path (str ".json")
      then written_json path (k.json_marshal cfg)
      else save_toml cfg path
