-- ===== src/Netd/Attributes.antt =====
-- The attributes of a netlink message, read back as rtnetlink lays them out.
use a_from_scratch_linux_use.Base.{
  ap₂, length-replicate, length-append, append_assoc, take-length-append, ◌∙◌, arith, [], zero,
  drop-length-append, ◌%◌, subst, ◌-◌, ap, ◌*◌, ◌||◌, suc, ◌/◌, drop, ◌++◌, ◌^◌, ltb, ◌∷◌, some,
  ◌≡◌, ◌+◌, replicate, length, ◌≤◌, take, ◌<◌, none, if◌then◌else◌, ℕ, Option, List, Bytes, refl,
}
use a_from_scratch_linux_use.Netd.Message.{put_uint16, encode_rt_attr, Netlink}

-- A type and a value.
abbrev pub Attribute : Type 0
Attribute = ℕ × Bytes

abbrev pub add_attribute : Attribute → Option (List Attribute) → Option (List Attribute)
add_attribute a none = none
add_attribute a (some rest) = some (a ∷ rest)

-- The value of an attribute of `len` bytes behind its four of length and type, and the attributes
-- behind the padding to a multiple of four.
abbrev split_value : ℕ → ℕ → Bytes → (Bytes → Option (List Attribute)) → Option (List Attribute)
split_value len kind rest f =
    if ltb len 4 || ltb (length rest) (len - 4)
    then none
    else add_attribute (kind, take (len - 4) rest) (f (drop ((len + 3) / 4 * 4 - 4) rest))

-- One unit of fuel for each attribute, and one for the end.
unfoldable pub read_attributes : ℕ → Bytes → Option (List Attribute)
read_attributes zero bytes = none
read_attributes (suc fuel) [] = some []
read_attributes (suc fuel) (a ∷ b ∷ c ∷ d ∷ rest) =
    split_value (a + b * 256) (c + d * 256) rest (read_attributes fuel)
read_attributes (suc fuel) short = none

-- An attribute that its two uint16 can describe.
abbrev pub Describable : Attribute → Type 0
Describable (kind, bytes) = (kind < 2 ^ 16) × (4 + length bytes < 2 ^ 16)

abbrev zeros : ℕ → Bytes
zeros n = replicate n 0

take-zeros : (n m : ℕ) → n ≤ m → take n (zeros m) ≡ zeros n
take-zeros zero m h = refl
take-zeros (suc n) zero h = elim (not_below n h) [ ]
  where
    not_below : (n : ℕ) → suc n ≤ 0 → ⊥
    not_below n h = omega arith
take-zeros (suc n) (suc m) h = ap (◌∷◌ 0) (take-zeros n m (omega arith))

take_filled :
    (n m : ℕ) (bytes : Bytes)
    → length bytes ≤ n
    → n ≤ m
    → take n (bytes ++ zeros m) ≡ bytes ++ zeros (n - length bytes)
take_filled n m [] h k = take-zeros n m k ∙ ap zeros (omega arith)
take_filled zero m (b ∷ bytes) h k = ground arith
take_filled (suc n) m (b ∷ bytes) h k =
    ap (◌∷◌ b) (take_filled n m bytes (omega arith) (omega arith))
    ∙ ap (λ r. b ∷ (bytes ++ zeros r)) (omega arith)

drop_append : (n : ℕ) (xs ys : Bytes) → length xs ≡ n → drop n (xs ++ ys) ≡ ys
drop_append n xs ys h = subst (λ m. drop m (xs ++ ys) ≡ ys) h (drop-length-append xs ys)

-- The padding behind a value of this length.
abbrev pub padding : ℕ → Bytes
padding n = replicate ((4 + n + 3) / 4 * 4 - (4 + n)) 0

split_value_lem :
    (kind : ℕ) (bytes rest : Bytes) (f : Bytes → Option (List Attribute))
    → split_value (4 + length bytes) kind (bytes ++ (padding (length bytes) ++ rest)) f
      ≡ add_attribute (kind, bytes) (f rest)
split_value_lem kind bytes rest f =
    let len = length bytes in
    let tail = padding len ++ rest in
    let behind = drop_append ((4 + len + 3) / 4 * 4 - 4) (bytes ++ padding len) rest (
      omega (
        arith,
        length-append bytes (padding len),
        length-replicate {A = ℕ} ((4 + len + 3) / 4 * 4 - (4 + len)) 0,
      )) in
    let minus : 4 + len - 4 ≡ len = omega arith in
    rw (minus) (
      ground (
        arith,
        take-length-append bytes tail,
        append_assoc bytes (padding len) rest,
        behind,
        length-append bytes tail,
      ))

uint16_low : (n : ℕ) → n < 2 ^ 16 → n % 256 + n / 256 % 256 * 256 ≡ n
uint16_low n h = omega arith

module _ (u : Netlink) (four : u.sizeof_rt_attr ≡ 4) where
  pub encode_rt_attr_lem :
      (kind : ℕ) (bytes : Bytes)
      → encode_rt_attr u kind bytes
        ≡ put_uint16 ((4 + length bytes) % 2 ^ 16)
          ++ (put_uint16 kind ++ (bytes ++ padding (length bytes)))
  unfolding encode_rt_attr put_uint16
  encode_rt_attr_lem kind bytes =
      let len = length bytes in
      let n = (4 + len + 3) / 4 * 4 in
      let front = put_uint16 ((4 + len) % 2 ^ 16) ++ (put_uint16 kind ++ bytes) in
      let filled =
        take_filled n n front (omega arith) (omega arith)
        ∙ ap (λ r. front ++ zeros r) (omega arith) in
      rw (four, encode_rt_attr) filled

  pub read_attributes-encode_rt_attr :
      (fuel kind : ℕ) (bytes rest : Bytes)
      → Describable (kind, bytes)
      → read_attributes (suc fuel) (encode_rt_attr u kind bytes ++ rest)
        ≡ add_attribute (kind, bytes) (read_attributes fuel rest)
  unfolding read_attributes put_uint16
  read_attributes-encode_rt_attr fuel kind bytes rest h =
      let len = length bytes in
      ap (λ e. read_attributes (suc fuel) (e ++ rest)) (encode_rt_attr_lem kind bytes)
      ∙ ap₂ (λ n k. split_value n k ((bytes ++ padding len) ++ rest) (read_attributes fuel))
          (ap (λ n. n % 256 + n / 256 % 256 * 256) (omega (arith, h.1)) ∙ uint16_low (4 + len) h.1)
          (uint16_low kind h.0)
      ∙ ap (λ r. split_value (4 + len) kind r (read_attributes fuel))
          (append_assoc bytes (padding len) rest)
      ∙ split_value_lem kind bytes rest (read_attributes fuel)
