-- ===== src/Svcd/Config/Values.antt =====
-- The values of internal/svcd/config.go: quoted text, arrays, sizes, quotas and booleans.
-- `none` of unquote and parse_array is the panic of a slice whose bounds are out of order.
use a_from_scratch_linux_use.Base.{
  ℕ, ◌+◌, ◌-◌, ◌*◌, ◌^◌, Bool, true, false, not, ◌&&◌, ◌||◌, Option, none, some, List, [], ◌∷◌,
  ◌++◌, ◌==◌, ltb, leb, if◌then◌else◌, Bytes, str, is_nil, length, take, drop, trim_space, to_upper,
  to_lower, has_prefix, has_suffix, trim_suffix, one_of,
}
use a_from_scratch_linux_use.Base.Int.{ℤ, pos, neg, scale, int64}

abbrev pub double_quote : ℕ
double_quote = 34

abbrev pub single_quote : ℕ
single_quote = 39

abbrev pub backslash : ℕ
backslash = 92

abbrev pub is_quote : ℕ → Bool
is_quote c = c == double_quote || c == single_quote

-- s[1 : len(s)-1] of a string of two bytes or more.
abbrev pub inner : Bytes → Bytes
inner s = take (length s - 2) (drop 1 s)

abbrev pub enclosed : Bytes → Bytes → Bytes → Bool
enclosed s l r = has_prefix s l && has_suffix s r

-- unquote
unfoldable pub unquote : Bytes → Option Bytes
unfolding trim_space has_prefix has_suffix
unquote s =
    let t = trim_space s in
    let d = double_quote ∷ [] in
    let q = single_quote ∷ [] in
    if enclosed t d d || enclosed t q q
    then if ltb (length t) 2 then none else some (inner t)
    else some t

-- The quoting that parseArray keeps from byte to byte.
pub record Quotes : Type 0 where
  pub in_quotes : Bool
  pub quote_char : ℕ
  pub escaped : Bool

abbrev pub outside : Quotes
outside = record { in_quotes = false; quote_char = 0; escaped = false }

-- A quote character opens a quotation, or closes the one that it opened.
abbrev pub toggle : ℕ → Quotes → Quotes
toggle c q =
    if not q.in_quotes
    then record q { in_quotes = true; quote_char = c }
    else if c == q.quote_char
    then record q { in_quotes = false }
    else q

-- The quoting behind one byte.
unfoldable pub quote_step : ℕ → Quotes → Quotes
quote_step c q =
    if q.escaped
    then record q { escaped = false }
    else if c == backslash && q.in_quotes
    then record q { escaped = true }
    else if is_quote c
    then toggle c q
    else q

-- The byte ends an item.
abbrev pub separates : ℕ → Quotes → Bool
separates c q = not q.escaped && (not q.in_quotes && c == b',')

-- An item behind the items after it: an empty one is left out.
abbrev pub add_item : Option Bytes → Option (List Bytes) → Option (List Bytes)
add_item none rest = none
add_item (some item) none = none
add_item (some item) (some rest) = some (if is_nil item then rest else item ∷ rest)

-- The loop of parseArray; `current` is the item so far.
unfoldable pub scan_items : Bytes → Quotes → Bytes → Option (List Bytes)
unfolding quote_step
scan_items [] q current =
    if is_nil current then some [] else add_item (unquote (trim_space current)) (some [])
scan_items (c ∷ cs) q current =
    let fresh = scan_items cs q [] in
    let longer = scan_items cs (quote_step c q) (current ++ (c ∷ [])) in
    if separates c q then add_item (unquote (trim_space current)) fresh else longer

-- parseArray; a nil slice and an empty one are the same here.
unfoldable pub parse_array : Bytes → Option (List Bytes)
unfolding scan_items
parse_array s =
    let t = trim_space s in
    if not (enclosed t (str "[") (str "]"))
    then some []
    else let content = trim_space (inner t) in
      if is_nil content then some [] else scan_items content outside []

-- strings.TrimRight(s, cutset)
abbrev drop_cut : (ℕ → Bool) → ℕ → Bytes → Bytes
drop_cut p c [] = if p c then [] else c ∷ []
drop_cut p c (d ∷ ds) = c ∷ d ∷ ds

unfoldable pub trim_cutset : (ℕ → Bool) → Bytes → Bytes
trim_cutset p [] = []
trim_cutset p (c ∷ cs) = drop_cut p c (trim_cutset p cs)

-- The digits of a number, read from the left.
unfoldable pub digits : ℕ → Bytes → Option ℕ
digits n [] = some n
digits n (c ∷ cs) =
    let rest = digits (n * 10 + (c - b'0')) cs in if leb b'0' c && leb c b'9' then rest else none

abbrev unsigned : Bytes → Option ℕ
unsigned [] = none
unsigned (c ∷ cs) = digits 0 (c ∷ cs)

abbrev to_positive : Option ℕ → Option ℤ
to_positive none = none
to_positive (some n) = if ltb n (2 ^ 63) then some (pos n) else none

abbrev to_negative : Option ℕ → Option ℤ
to_negative none = none
to_negative (some n) = if leb n (2 ^ 63) then some (neg n) else none

-- strconv.ParseInt(s, 10, 64), and strconv.Atoi where an int has 64 bits.
unfoldable pub parse_int : Bytes → Option ℤ
unfolding digits
parse_int [] = none
parse_int (c ∷ cs) =
    if c == b'-'
    then to_negative (unsigned cs)
    else if c == b'+'
    then to_positive (unsigned cs)
    else to_positive (digits 0 (c ∷ cs))

-- The multiplier of a size, and what is left to parse.
unfoldable pub split_unit : Bytes → ℕ × Bytes
unfolding has_suffix trim_cutset
split_unit s =
    let upper = to_upper s in
    let ends = λ (u : Bytes). has_suffix upper u in
    if ends (str "G") || ends (str "GB")
    then (1024 * 1024 * 1024, trim_cutset (λ c. c == b'G' || c == b'B') upper)
    else if ends (str "M") || ends (str "MB")
    then (1024 * 1024, trim_cutset (λ c. c == b'M' || c == b'B') upper)
    else if ends (str "K") || ends (str "KB")
    then (1024, trim_cutset (λ c. c == b'K' || c == b'B') upper)
    else (1, s)

-- parseMemoryLimit; the product is that of two int64.
unfoldable pub parse_memory_limit : Bytes → Option ℤ
unfolding split_unit parse_int int64
parse_memory_limit s =
    let t = trim_space s in
    let (k, number) = split_unit t in
    if is_nil t
    then some (pos 0)
    else elim (parse_int (trim_space number)) [ none ↦ none | some z ↦ some (int64 (scale k z)) ]

-- What the reader needs of float64: zero, and strconv.ParseFloat.
pub record Floats (F : Type 0) : Type 0 where
  pub zero_float : F
  pub parse_float : Bytes → Option F

-- parseCPUQuota
unfoldable pub parse_cpu_quota : {F : Type 0} → Floats F → Bytes → Option F
unfolding trim_suffix
parse_cpu_quota fl s =
    let t = trim_space s in
    if is_nil t then some fl.zero_float else fl.parse_float (trim_space (trim_suffix t (str "%")))

-- parseBool
unfoldable pub parse_bool : Bytes → Option Bool
parse_bool s = elim (unquote (trim_space s)) [
  | none ↦ none
  | some t ↦ some (one_of (to_lower t) (str "true" ∷ str "1" ∷ str "yes" ∷ []))
]
