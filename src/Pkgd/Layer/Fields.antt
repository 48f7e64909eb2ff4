-- ===== src/Pkgd/Layer/Fields.antt =====
-- A line `key = "value"` of a layer file, as SaveLayerConfig prints it and parseLayerTOML reads it.
use a_from_scratch_linux_use.Base.{
  sym, append_assoc, false, is_space, take-length-append, ◌∙◌, str, length-append, ap, drop_blank,
  ◌≤◌, refl, arith, length, some, [], true, not, trim_left, str_eq, ◌||◌, ◌++◌, ◌≡◌, ◌&&◌, cut,
  trim_space, has_prefix, has_suffix, trim_right, ◌==◌, ◌∷◌, All, leb, ℕ, Bool, Bytes,
}
use a_from_scratch_linux_use.Pkgd.Layer.{
  layer_pair, layer_or_fresh, set_field, Layers, parse_layer_line, unquote_value,
}

-- The bytes that %q prints as they are: printable, neither a quote nor a backslash.
abbrev pub is_plain : ℕ → Bool
is_plain c = leb 32 c && (leb c 126 && (not (c == 34) && not (c == 92)))

-- A value that fits on a line and needs no escapes.
abbrev pub Plain : Bytes → Type 0
Plain s = All (λ c. is_plain c ≡ true) s × (length s ≤ 65000)

abbrev pub quoted : Bytes → Bytes
quoted s = 34 ∷ (s ++ (34 ∷ []))

abbrev pub is_key_byte : ℕ → Bool
is_key_byte c = c == 95 || ((leb 97 c && leb c 122) || (leb 48 c && leb c 57))

drop_blank-ends : (c : ℕ) (s : Bytes) → drop_blank c (s ++ (34 ∷ [])) ≡ c ∷ (s ++ (34 ∷ []))
drop_blank-ends c [] = refl
drop_blank-ends c (d ∷ s) = refl

trim_right_ends : (s : Bytes) → trim_right (s ++ (34 ∷ [])) ≡ s ++ (34 ∷ [])
unfolding trim_right
trim_right_ends [] = refl
trim_right_ends (c ∷ s) = ap (drop_blank c) (trim_right_ends s) ∙ drop_blank-ends c s

has_suffix_ends : (s : Bytes) → has_suffix (s ++ (34 ∷ [])) (34 ∷ []) ≡ true
unfolding has_suffix str_eq
has_suffix_ends [] = refl
has_suffix_ends (c ∷ s) = ground (arith, has_suffix_ends s)

-- What is quoted is read back.
pub unquote_value-quoted : (s : Bytes) → unquote_value (quoted s) ≡ some s
unfolding unquote_value has_prefix has_suffix
unquote_value-quoted s =
    rw (has_suffix_ends s, length-append s (34 ∷ [])) ground (arith, take-length-append s (34 ∷ []))

-- The blank behind the "=".
pub trim_space-quoted : (s : Bytes) → trim_space (32 ∷ quoted s) ≡ quoted s
unfolding trim_space trim_left
trim_space-quoted s = ap (drop_blank 34) (trim_right_ends s) ∙ drop_blank-ends 34 s

cut_key :
    (key rest : Bytes)
    → All (λ c. is_key_byte c ≡ true) key
    → cut b'=' (key ++ (32 ∷ b'=' ∷ rest)) ≡ some (key ++ (32 ∷ []), rest)
unfolding cut
cut_key [] rest h = refl
cut_key (c ∷ key) rest h = ground (arith, cut_key key rest h.1, h.0)

key_byte_no_space : (c : ℕ) → is_key_byte c ≡ true → is_space c ≡ false
key_byte_no_space c h = ground arith

trim_left_key : (c : ℕ) (s : Bytes) → is_key_byte c ≡ true → trim_left (c ∷ s) ≡ c ∷ s
unfolding trim_left
trim_left_key c s h = ground (arith, key_byte_no_space c h)

drop_blank-key : (c : ℕ) (key : Bytes) → is_key_byte c ≡ true → drop_blank c key ≡ c ∷ key
drop_blank-key c [] h = ground (arith, key_byte_no_space c h)
drop_blank-key c (d ∷ key) h = refl

trim_right_key :
    (key : Bytes) → All (λ c. is_key_byte c ≡ true) key → trim_right (key ++ (32 ∷ [])) ≡ key
unfolding trim_right
trim_right_key [] h = refl
trim_right_key (c ∷ key) h = ap (drop_blank c) (trim_right_key key h.1) ∙ drop_blank-key c key h.0

-- The blank in front of the "=".
trim_space_key :
    (c : ℕ) (key : Bytes)
    → All (λ c. is_key_byte c ≡ true) (c ∷ key)
    → trim_space ((c ∷ key) ++ (32 ∷ [])) ≡ c ∷ key
unfolding trim_space
trim_space_key c key h =
    ap trim_right (trim_left_key c (key ++ (32 ∷ [])) h.0) ∙ trim_right_key (c ∷ key) h

-- key = "value"
abbrev pub line_of : Bytes → Bytes → Bytes
line_of key val = key ++ (str " = " ++ quoted val)

-- Neither end of a line is blank.
line_of-trimmed :
    (c : ℕ) (key val : Bytes)
    → is_key_byte c ≡ true
    → trim_space (line_of (c ∷ key) val) ≡ line_of (c ∷ key) val
unfolding trim_space
line_of-trimmed c key val h =
    let front = (c ∷ key) ++ (str " = " ++ (34 ∷ val)) in
    let whole = append_assoc (c ∷ key) (str " = " ++ (34 ∷ val)) (34 ∷ []) in
    ap trim_right (trim_left_key c (key ++ (str " = " ++ quoted val)) h)
    ∙ ap trim_right (sym whole)
    ∙ trim_right_ends front
    ∙ whole

-- Such a line is neither a comment nor a heading.
parse_layer_line-pair :
    (s : Layers) (c : ℕ) (rest : Bytes)
    → is_key_byte c ≡ true
    → parse_layer_line s (c ∷ rest) ≡ layer_pair s (cut b'=' (c ∷ rest))
unfolding parse_layer_line has_prefix str_eq
parse_layer_line-pair s c rest h = ground arith

pub parse_layer_line-field :
    (s : Layers) (c : ℕ) (key val : Bytes)
    → All (λ c. is_key_byte c ≡ true) (c ∷ key)
    → parse_layer_line s (trim_space (line_of (c ∷ key) val))
      ≡ some (record s { current = some (set_field (layer_or_fresh s.current) (c ∷ key) val) })
parse_layer_line-field s c key val h =
    rw
      (
        line_of-trimmed c key val h.0,
        parse_layer_line-pair s c (key ++ (str " = " ++ quoted val)) h.0,
        cut_key (c ∷ key) (32 ∷ quoted val) h,
        trim_space_key c key h,
        trim_space-quoted val,
        unquote_value-quoted val,
      )
      refl
