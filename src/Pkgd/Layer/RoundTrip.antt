-- ===== src/Pkgd/Layer/RoundTrip.antt =====
-- A layer file that SaveLayerConfig writes and LoadLayerConfig reads.
use a_from_scratch_linux_use.Base.Scanner.Written.{in_line}
use a_from_scratch_linux_use.Base.{
  All-append, ◌&&◌, append_assoc, has_prefix, trim_right, trim_left, str, ap, trim_space,
  append-nil, ◌∙◌, refl, sym, str_eq, arith, ◌∷◌, ◌++◌, true, some, ◌≡◌, [], All, ◌≢◌, ℕ, Bool,
  List, Bytes,
}
use a_from_scratch_linux_use.Pkgd.Layer.{
  fresh_layer, all_spec_lines, parse_layer_line, complete, with_current, spec_lines, optional_line,
  layer_or_fresh, set_field, field_line, Layers, LayerFiles, parse_layer_lines, LayerSpec,
}
use a_from_scratch_linux_use.Pkgd.Layer.Fields.{
  parse_layer_line-field, is_key_byte, quoted, is_plain, Plain,
}

-- A layer with a name, whose texts need no escapes.
abbrev pub PlainLayer : LayerSpec → Type 0
PlainLayer l =
    (l.name ≢ []) × Plain l.name × Plain l.kind × Plain l.path × Plain l.target_dir × Plain l.sha256

-- What the documentation of package strconv says of %q for such texts.
abbrev pub Quotes : (Bytes → Bytes) → Type 0
Quotes quote = (s : Bytes) → Plain s → quote s ≡ quoted s

plain_in_line : (s : Bytes) → All (λ c. is_plain c ≡ true) s → All (λ c. in_line c ≡ true) s
plain_in_line [] h = tt
plain_in_line (c ∷ s) h = (ground (arith, h.0), plain_in_line s h.1)

pub read_line :
    (s t : Layers) (line : Bytes) (lines : List Bytes)
    → parse_layer_line s (trim_space line) ≡ some t
    → parse_layer_lines s (line ∷ lines) ≡ parse_layer_lines t lines
unfolding parse_layer_lines
read_line s t line lines h = rw (h, parse_layer_lines) refl

read_heading :
    (s : Layers)
    → parse_layer_line s (trim_space (str "[[layer]]"))
      ≡ some (record { done = with_current s.done s.current; current = some fresh_layer })
unfolding parse_layer_line trim_space trim_left trim_right has_prefix str_eq
read_heading s = refl

pub read_blank : (s : Layers) → parse_layer_line s (trim_space []) ≡ some s
unfolding parse_layer_line trim_space trim_left trim_right
read_blank s = refl

-- The bytes of a key.
abbrev pub IsKey : Bytes → Type 0
IsKey key = All (λ c. is_key_byte c ≡ true) key

-- The state once a field is read.
abbrev with_field : Layers → Bytes → Bytes → Layers
with_field s key val = record s { current = some (set_field (layer_or_fresh s.current) key val) }

-- The bytes of a key, as a test.
abbrev pub all_key_bytes : Bytes → Bool
all_key_bytes [] = true
all_key_bytes (c ∷ cs) = is_key_byte c && all_key_bytes cs

pub is_key : (key : Bytes) → all_key_bytes key ≡ true → IsKey key
is_key [] h = tt
is_key (c ∷ cs) h = (ground arith, is_key cs (ground arith))

pub key_in_line : (key : Bytes) → IsKey key → All (λ c. in_line c ≡ true) key
key_in_line [] h = tt
key_in_line (c ∷ key) h = (ground (arith, h.0), key_in_line key h.1)

pub quoted-in_line :
    (s : Bytes) → All (λ c. is_plain c ≡ true) s → All (λ c. in_line c ≡ true) (quoted s)
quoted-in_line s h =
    (refl, All-append (λ c. in_line c ≡ true) s (34 ∷ []) (plain_in_line s h) (refl, tt))

abbrev reading : List LayerSpec → LayerSpec → Layers
reading done l = record { done = done; current = some l }

complete-reading :
    (done : List LayerSpec) (l : LayerSpec)
    → l.name ≢ []
    → complete (reading done l) ≡ done ++ (l ∷ [])
complete-reading done l h = ground (arith, h)

module _ {W : Type 0} (k : LayerFiles W) (law : Quotes k.quote) where
  -- One field, read behind the others.
  parse_field :
      (s : Layers) (c : ℕ) (key val : Bytes) (lines : List Bytes)
      → IsKey (c ∷ key)
      → Plain val
      → parse_layer_lines s (field_line k (c ∷ key) val ∷ lines)
        ≡ parse_layer_lines (with_field s (c ∷ key) val) lines
  parse_field s c key val lines h p =
      read_line s (with_field s (c ∷ key) val) (field_line k (c ∷ key) val) lines (
        ap (λ q. parse_layer_line s (trim_space ((c ∷ key) ++ (str " = " ++ q)))) (law val p)
        ∙ parse_layer_line-field s c key val h)

  -- A field that is printed only if it is there.
  parse_optional :
      (s t : Layers) (c : ℕ) (key val : Bytes) (lines : List Bytes)
      → IsKey (c ∷ key)
      → Plain val
      → (val ≡ [] → s ≡ t)
      → with_field s (c ∷ key) val ≡ t
      → parse_layer_lines s (optional_line k (c ∷ key) val ++ lines) ≡ parse_layer_lines t lines
  parse_optional s t c key [] lines h p e f = ap (λ u. parse_layer_lines u lines) (e refl)
  parse_optional s t c key (d ∷ val) lines h p e f =
      parse_field s c key (d ∷ val) lines h p ∙ ap (λ u. parse_layer_lines u lines) f

  -- The optional fields, and the empty line behind them.
  parse_rest :
      (done : List LayerSpec) (l : LayerSpec) (lines : List Bytes)
      → PlainLayer l
      → parse_layer_lines (reading done (record l { target_dir = []; sha256 = [] })) (
          optional_line k (str "target_dir") l.target_dir
          ++ (optional_line k (str "sha256") l.sha256 ++ ([] ∷ lines)))
        ≡ parse_layer_lines (reading done l) lines
  unfolding set_field str_eq
  parse_rest done l lines (n, p1, p2, p3, p4, p5) =
      let last = optional_line k (str "sha256") l.sha256 ++ ([] ∷ lines) in
      let without = reading done (record l { sha256 = [] }) in
      parse_optional (reading done (record l { target_dir = []; sha256 = [] })) without b't'
        (str "arget_dir") l.target_dir last (is_key (b't' ∷ str "arget_dir") refl) p4
        (λ e. ap (λ v. reading done (record l { target_dir = v; sha256 = [] })) (sym e)) refl
      ∙ parse_optional without (reading done l) b's' (str "ha256") l.sha256 ([] ∷ lines)
          (is_key (b's' ∷ str "ha256") refl) p5
          (λ e. ap (λ v. reading done (record l { sha256 = v })) (sym e)) refl
      ∙ read_line (reading done l) (reading done l) [] lines (read_blank (reading done l))

  -- The lines of one layer: the layers before it are complete.
  parse_layer :
      (s : Layers) (l : LayerSpec) (lines : List Bytes)
      → PlainLayer l
      → parse_layer_lines s (spec_lines k l ++ lines)
        ≡ parse_layer_lines (reading (with_current s.done s.current) l) lines
  unfolding spec_lines set_field str_eq
  parse_layer s l lines (n, p1, p2, p3, p4, p5) =
      let done = with_current s.done s.current in
      let target = optional_line k (str "target_dir") l.target_dir in
      let hash = optional_line k (str "sha256") l.sha256 in
      let tail = (target ++ (hash ++ ([] ∷ []))) ++ lines in
      let named = record fresh_layer { name = l.name } in
      let typed = record named { kind = l.kind } in
      read_line s (reading done fresh_layer) (str "[[layer]]")
        (field_line k (str "name") l.name
          ∷ field_line k (str "type") l.kind
          ∷ field_line k (str "path") l.path
          ∷ tail)
        (read_heading s)
      ∙ parse_field (reading done fresh_layer) b'n' (str "ame") l.name
          (field_line k (str "type") l.kind ∷ field_line k (str "path") l.path ∷ tail)
          (is_key (b'n' ∷ str "ame") refl) p1
      ∙ parse_field (reading done named) b't' (str "ype") l.kind
          (field_line k (str "path") l.path ∷ tail) (is_key (b't' ∷ str "ype") refl) p2
      ∙ parse_field (reading done typed) b'p' (str "ath") l.path tail
          (is_key (b'p' ∷ str "ath") refl) p3
      ∙ ap (parse_layer_lines (reading done (record typed { path = l.path }))) (
          append_assoc target (hash ++ ([] ∷ [])) lines
          ∙ ap (λ r. target ++ r) (append_assoc hash ([] ∷ []) lines))
      ∙ parse_rest done l lines (n, p1, p2, p3, p4, p5)

  -- The lines of all layers.
  pub parse_layers :
      (s : Layers) (ls : List LayerSpec)
      → All PlainLayer ls
      → with_current s.done s.current ≡ complete s
      → (t : Layers) × (parse_layer_lines s (all_spec_lines k ls) ≡ some t)
        × (complete t ≡ with_current s.done s.current ++ ls)
  unfolding parse_layer_lines
  parse_layers s [] h e = (s, refl, sym e ∙ sym (append-nil (with_current s.done s.current)))
  parse_layers s (l ∷ ls) h e =
      let done = with_current s.done s.current in
      let next = reading done l in
      let (t, r, c) = parse_layers next ls h.1 (sym (complete-reading done l h.0.0)) in
      (t, parse_layer s l (all_spec_lines k ls) h.0 ∙ r, c ∙ append_assoc done (l ∷ []) ls)
