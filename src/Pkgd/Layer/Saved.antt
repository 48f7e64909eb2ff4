-- ===== src/Pkgd/Layer/Saved.antt =====
-- What SaveLayerConfig writes, LoadLayerConfig reads.
use a_from_scratch_linux_use.Base.{
  drop, drop_blank, ap, ◌∙◌, has_prefix, trim_right, trim_left, none, trim_space, ◌<◌, ◌&&◌, refl,
  refl, length-append, sym, ◌++◌, false, arith, subst, [], has_suffix, some, All-append, ◌∷◌, str,
  Option, true, ◌≤◌, ◌≡◌, All, length, Bool, List, Bytes,
}
use a_from_scratch_linux_use.Base.Io.{call-eq-ok, call, >>=-eq-ok, ok}
use a_from_scratch_linux_use.Base.Scanner.{text_of, scan_lines}
use a_from_scratch_linux_use.Base.Scanner.Written.{scan_lines-text_of, in_line, Tidy}
use a_from_scratch_linux_use.Pkgd.Layer.{
  save_toml, not_written, not_created, dir, finished, layer_heading, Layers, parse_layer_line,
  config_or_empty, loaded, field_line, contents, LayerConfig, layer_text, all_spec_lines,
  optional_line, load_layer_config, parse_layer_toml, spec_lines, save_layer_config, LayerFiles,
  LayerSpec,
}
use a_from_scratch_linux_use.Pkgd.Layer.Fields.{quoted, Plain, line_of}
use a_from_scratch_linux_use.Pkgd.Layer.RoundTrip.{
  read_blank, read_line, quoted-in_line, key_in_line, is_key, IsKey, PlainLayer, Quotes,
  parse_layers,
}

-- The bytes of a line, as a test.
abbrev all_in_line : Bytes → Bool
all_in_line [] = true
all_in_line (c ∷ cs) = in_line c && all_in_line cs

tidy : (line : Bytes) → all_in_line line ≡ true → length line < 65536 → Tidy line
tidy line h n = (all_bytes line h, n)
  where
    all_bytes : (s : Bytes) → all_in_line s ≡ true → All (λ c. in_line c ≡ true) s
    all_bytes [] h = tt
    all_bytes (c ∷ cs) h = (ground arith, all_bytes cs (ground arith))

-- The comment at the head of the file.
read_comment : (s : Layers) → parse_layer_line s (trim_space layer_heading) ≡ some s
unfolding parse_layer_line trim_space trim_left trim_right has_prefix
read_comment s = refl

line_of-Tidy : (key val : Bytes) → IsKey key → length key ≤ 20 → Plain val → Tidy (line_of key val)
line_of-Tidy key val h n p = (
  All-append (λ c. in_line c ≡ true) key (str " = " ++ quoted val) (key_in_line key h)
      (refl, (refl, (refl, quoted-in_line val p.0))),
  omega (arith, length-append key (str " = " ++ quoted val), length-append val (34 ∷ []), n, p.1),
)

module _ {W : Type 0} (k : LayerFiles W) (law : Quotes k.quote) where
  field_line-Tidy :
      (key val : Bytes) → IsKey key → length key ≤ 20 → Plain val → Tidy (field_line k key val)
  field_line-Tidy key val h n p =
      subst (λ q. Tidy (key ++ (str " = " ++ q))) (sym (law val p)) (line_of-Tidy key val h n p)

  optional_line-Tidy :
      (key val : Bytes)
      → IsKey key
      → length key ≤ 20
      → Plain val
      → All Tidy (optional_line k key val)
  optional_line-Tidy key [] h n p = tt
  optional_line-Tidy key (c ∷ val) h n p = (field_line-Tidy key (c ∷ val) h n p, tt)

  spec_lines-Tidy : (l : LayerSpec) → PlainLayer l → All Tidy (spec_lines k l)
  unfolding spec_lines
  spec_lines-Tidy l (n, p1, p2, p3, p4, p5) =
      let target = optional_line k (str "target_dir") l.target_dir in
      let hash = optional_line k (str "sha256") l.sha256 in
      (
        tidy (str "[[layer]]") refl (omega arith),
        (
          field_line-Tidy (str "name") l.name (is_key (str "name") refl) (omega arith) p1,
          (
            field_line-Tidy (str "type") l.kind (is_key (str "type") refl) (omega arith) p2,
            (
              field_line-Tidy (str "path") l.path (is_key (str "path") refl) (omega arith) p3,
              All-append Tidy target (hash ++ ([] ∷ []))
                  (optional_line-Tidy (str "target_dir") l.target_dir
                    (is_key (str "target_dir") refl) (omega arith) p4)
                  (All-append Tidy hash ([] ∷ [])
                    (optional_line-Tidy (str "sha256") l.sha256 (is_key (str "sha256") refl)
                      (omega arith) p5)
                    (tidy [] refl (omega arith), tt)),
            ),
          ),
        ),
      )

  all_spec_lines-Tidy : (ls : List LayerSpec) → All PlainLayer ls → All Tidy (all_spec_lines k ls)
  all_spec_lines-Tidy [] h = tt
  all_spec_lines-Tidy (l ∷ ls) h =
      All-append Tidy (spec_lines k l) (all_spec_lines k ls) (spec_lines-Tidy l h.0)
        (all_spec_lines-Tidy ls h.1)

  -- The text, read back.
  parse_layer_toml-layer_text :
      (path : Bytes) (cfg : LayerConfig)
      → All PlainLayer cfg.layers
      → parse_layer_toml path (some (scan_lines [] (layer_text k cfg))) ≡ loaded cfg
  unfolding parse_layer_toml layer_text
  parse_layer_toml-layer_text path cfg h =
      let lines = all_spec_lines k cfg.layers in
      let start : Layers = record { done = []; current = none } in
      let scan = scan_lines-text_of (layer_heading ∷ [] ∷ lines) (
        tidy layer_heading refl (omega arith),
        (tidy [] refl (omega arith), all_spec_lines-Tidy cfg.layers h),
      ) in
      let (t, r, c) = parse_layers k law start cfg.layers h refl in
      let read =
        read_line start start layer_heading ([] ∷ lines) (read_comment start)
        ∙ read_line start start [] lines (read_blank start)
        ∙ r in
      ap (λ x. parse_layer_toml path (some x)) scan
      ∙ ap (finished path false) read
      ∙ ap (λ ls. loaded (record { layers = ls })) c

-- What is written to a file is what is read from it.
abbrev pub KeepsFiles : {W : Type 0} → LayerFiles W → Type 0
KeepsFiles {W} k =
    (path bytes : Bytes) (w w' : W)
    → k.write_file path bytes w ≡ (w', true)
    → (k.read_file path w' ≡ contents bytes) × (k.open_scanner path w' ≡ some (scan_lines [] bytes))

hash_no_json : (r : Bytes) → has_prefix (drop_blank 35 r) (str "{") ≡ false
unfolding has_prefix
hash_no_json [] = refl
hash_no_json (c ∷ r) = refl

comment_no_json : (s : Bytes) → has_prefix (trim_space (35 ∷ s)) (str "{") ≡ false
unfolding trim_space trim_left trim_right
comment_no_json s = hash_no_json (trim_right s)

-- The text begins with a comment, so that it is not taken for JSON.
text_no_json :
    {W : Type 0} (k : LayerFiles W) (cfg : LayerConfig)
    → has_prefix (trim_space (layer_text k cfg)) (str "{") ≡ false
unfolding layer_text text_of
text_no_json k cfg = comment_no_json (drop 1 (layer_text k cfg))

-- What a file holds decides what is loaded.
load_toml :
    {W : Type 0} (k : LayerFiles W) (cfg : LayerConfig) (path : Bytes) (w : W)
    → Quotes k.quote
    → All PlainLayer cfg.layers
    → has_suffix path (str ".json") ≡ false
    → k.read_file path w ≡ contents (layer_text k cfg)
    → k.open_scanner path w ≡ some (scan_lines [] (layer_text k cfg))
    → load_layer_config k path w ≡ loaded cfg
unfolding load_layer_config
load_toml k cfg path w q h j r o =
    let parsed = parse_layer_toml-layer_text k q path cfg h in
    rw (r, j, text_no_json k cfg, o) parsed

save_toml_lem :
    {W : Type 0} (k : LayerFiles W) (given : Option LayerConfig) (path : Bytes) (w : W)
    → has_suffix path (str ".json") ≡ false
    → save_layer_config k given path w ≡ save_toml k (config_or_empty given) path w
unfolding save_layer_config
save_toml_lem k given path w j = rw (j) refl

-- A configuration whose layers have names and whose texts are printable, without quotes and
-- backslashes, and at most 65,000 bytes long, is read back unchanged from the TOML file that a
-- successful SaveLayerConfig has left, where %q puts such texts between quotes and files keep what
-- is written to them.
pub save_layer_config-load_layer_config :
    {W : Type 0} (k : LayerFiles W) (given : Option LayerConfig) (path : Bytes) (w w' : W)
    → Quotes k.quote
    → KeepsFiles k
    → has_suffix path (str ".json") ≡ false
    → All PlainLayer (config_or_empty given).layers
    → save_layer_config k given path w ≡ (w', ok tt)
    → load_layer_config k path w' ≡ loaded (config_or_empty given)
save_layer_config-load_layer_config k given path w w' q f j h e =
    let cfg = config_or_empty given in
    let (w1, u, e1, e2) =
      >>=-eq-ok (call (k.mkdir_all (dir path)) not_created)
        (λ x. call (k.write_file path (layer_text k cfg)) not_written) w w' tt
        (sym (save_toml_lem k given path w j) ∙ e) in
    let (r, o) =
      f path (layer_text k cfg) w1 w'
        (call-eq-ok (k.write_file path (layer_text k cfg)) not_written w1 w' e2) in
    load_toml k cfg path w' q h j r o
