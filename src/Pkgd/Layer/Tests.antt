-- ===== src/Pkgd/Layer/Tests.antt =====
-- Concrete files of layers, in a world of files that writes always succeed in.
use a_from_scratch_linux_use.Pkgd.Layer.RoundTrip.{PlainLayer}
use a_from_scratch_linux_use.Base.Scanner.{scan_lines}
use a_from_scratch_linux_use.Base.{
  arith, ◌≤◌, ◌&&◌, false, All, ◌≢◌, length, has_suffix, cut, str_eq, has_prefix, trim_space, ◌++◌,
  ap, str_eq_refl, ◌∷◌, [], some, none, str, subst, ◌≡◌, true, ℕ, Bool, Option, List, Bytes, refl,
}
use a_from_scratch_linux_use.Base.Maps.{lookup, store, lookup-store}
use a_from_scratch_linux_use.Base.Io.{ok}
use a_from_scratch_linux_use.Pkgd.Layer.{
  layer_text, unquote_value, parse_layer_line, parse_layer_lines, fresh_layer, crashed, loaded,
  contents, save_layer_config, not_exist, parse_layer_toml, load_layer_config, LayerConfig, Scanned,
  FileData, LayerSpec, LayerFiles,
}
use a_from_scratch_linux_use.Pkgd.Layer.Fields.{Plain, is_plain, quoted}
use a_from_scratch_linux_use.Pkgd.Layer.Saved.{KeepsFiles, save_layer_config-load_layer_config}

abbrev found_data : Option Bytes → FileData
found_data none = not_exist
found_data (some bytes) = contents bytes

abbrev scan_of : Option Bytes → Option Scanned
scan_of none = none
scan_of (some bytes) = some (scan_lines [] bytes)

abbrev disk : LayerFiles (List (Bytes × Bytes))
disk = record {
  read_file = λ p w. found_data (lookup w p);
  open_scanner = λ p w. scan_of (lookup w p);
  mkdir_all = λ p w. (w, true);
  write_file = λ p b w. (store w p b, true);
  json_unmarshal = λ b. none;
  json_marshal = λ c. none;
  quote = quoted;
}

disk_keeps_lem :
    (path bytes : Bytes) (w : List (Bytes × Bytes)) → lookup (store w path bytes) path ≡ some bytes
disk_keeps_lem path bytes w = rw (lookup-store w path path bytes, str_eq_refl path) refl

disk-KeepsFiles : KeepsFiles disk
disk-KeepsFiles path bytes w w' e =
    let here =
      subst (λ v. lookup v path ≡ some bytes) (ap (λ r. r.0) e) (disk_keeps_lem path bytes w) in
    (ap found_data here, ap scan_of here)

abbrev base_layer : LayerSpec
base_layer = record {
  name = str "base";
  kind = str "oci-archive";
  path = str "layers/base = 1.tar";
  target_dir = [];
  sha256 = [];
}

abbrev tools : LayerSpec
tools = record {
  name = str "tools";
  kind = str "directory";
  path = str "# tools";
  target_dir = str "/opt";
  sha256 = str "ab12";
}

abbrev two : LayerConfig
two = record { layers = base_layer ∷ tools ∷ [] }

abbrev where_to : Bytes
where_to = str "/etc/layers.toml"

abbrev all_plain : Bytes → Bool
all_plain [] = true
all_plain (c ∷ cs) = is_plain c && all_plain cs

plain : (s : Bytes) → all_plain s ≡ true → length s ≤ 65000 → Plain s
plain s h n = (bytes s h, n)
  where
    bytes : (s : Bytes) → all_plain s ≡ true → All (λ c. is_plain c ≡ true) s
    bytes [] h = tt
    bytes (c ∷ cs) h = (ground arith, bytes cs (ground arith))

some_text : (c : ℕ) (cs : Bytes) → (c ∷ cs) ≢ []
some_text c cs h = cc

two-PlainLayer : All PlainLayer two.layers
two-PlainLayer = (
  (
    some_text b'b' (str "ase"),
    plain base_layer.name refl (omega arith),
    plain base_layer.kind refl (omega arith),
    plain base_layer.path refl (omega arith),
    plain [] refl (omega arith),
    plain [] refl (omega arith),
  ),
  (
    (
      some_text b't' (str "ools"),
      plain tools.name refl (omega arith),
      plain tools.kind refl (omega arith),
      plain tools.path refl (omega arith),
      plain tools.target_dir refl (omega arith),
      plain tools.sha256 refl (omega arith),
    ),
    tt,
  ),
)

no_json : has_suffix where_to (str ".json") ≡ false
unfolding has_suffix str_eq
no_json = refl

saved_lem :
    save_layer_config disk (some two) where_to [] ≡ (store [] where_to (layer_text disk two), ok tt)
unfolding save_layer_config has_suffix str_eq
saved_lem = refl

save_layer_config-load_layer_config_example :
    load_layer_config disk where_to (store [] where_to (layer_text disk two)) ≡ loaded two
save_layer_config-load_layer_config_example =
    save_layer_config-load_layer_config disk (some two) where_to []
      (store [] where_to (layer_text disk two)) (λ s p. refl) disk-KeepsFiles no_json two-PlainLayer
      saved_lem

-- A layer without a name stays where another one follows it, and goes at the end of the file.
unnamed_kept :
    parse_layer_toml where_to
      (some (scan_lines [] (str "[[layer]]" ++ (10 ∷ str "[[layer]]" ++ (10 ∷ str "[[layer]]")))))
    ≡ loaded (record { layers = fresh_layer ∷ fresh_layer ∷ [] })
unfolding parse_layer_toml parse_layer_lines scan_lines parse_layer_line trim_space has_prefix
    str_eq
unnamed_kept = refl

-- One quote character stops the program.
quote_crashes : parse_layer_toml where_to (some (scan_lines [] (str "name = \""))) ≡ crashed
unfolding parse_layer_toml parse_layer_lines scan_lines parse_layer_line trim_space has_prefix
    str_eq cut unquote_value has_suffix
quote_crashes = refl
