-- ===== src/Secd/Capabilities/Sets.antt =====
-- Which capabilities the words of internal/secd/capabilities.go hold.
use a_from_scratch_linux_use.Base.Bits.{test_bit, test_bit-or_bit, test_bit_zero}
use a_from_scratch_linux_use.Base.{
  ◌++◌, refl, true, [], none, ◌-◌, ltb, ◌||◌, ◌&&◌, ◌==◌, if◌then◌else◌, str, not, some, ◌∷◌, false,
  List, ◌≡◌, Bool, Option, Bytes, ℕ, ◌<◌, arith,
}
use a_from_scratch_linux_use.Secd.Capabilities.{
  unknown_capability, err, SecdError, Result, is_word, full_name, ok, parse_capability,
  collect_caps, no_caps, CapSet, keep,
}

-- Whether the words hold a capability.
abbrev pub has : CapSet → ℕ → Bool
has set j = if ltb j 32 then test_bit set.low j else test_bit set.high (j - 32)

abbrev pub is_some_eq : Option ℕ → ℕ → Bool
is_some_eq none j = false
is_some_eq (some c) j = c == j

pub has-no_caps : (j : ℕ) → has no_caps j ≡ false
has-no_caps j = ground (arith, test_bit_zero j, test_bit_zero (j - 32))

has-keep : (c j : ℕ) (set : CapSet) → c < 64 → j < 64 → has (keep c set) j ≡ (c == j || has set j)
unfolding keep
has-keep c j set h k =
    ground (arith, test_bit-or_bit set.low c j, test_bit-or_bit set.high (c - 32) (j - 32))

module _ (cap : Bytes → ℕ) where
  -- Some name of the list that is not "NONE" is that of capability `j`.
  unfoldable pub is_kept : List Bytes → ℕ → Bool
  is_kept [] j = false
  is_kept (s ∷ names) j =
      (not (is_word (str "NONE") s) && is_some_eq (parse_capability cap s) j) || is_kept names j

  -- The numbers of capabilities fit in the two words.
  abbrev pub HasRange : Type 0
  HasRange = (name : Bytes) → cap name < 64

  parse_capability-lt : (s : Bytes) (c : ℕ) → HasRange → parse_capability cap s ≡ some c → c < 64
  unfolding parse_capability
  parse_capability-lt s c range h = ground (arith, range (full_name s))

  abbrev next_caps : Bytes → List Bytes → CapSet → Bool → Option ℕ → Result SecdError CapSet
  next_caps s names set none_word o = elim none_word [
    | true ↦ collect_caps cap set names
    | false ↦ elim o [
      | none ↦ err (unknown_capability s)
      | some c ↦ collect_caps cap (keep c set) names
    ]
  ]

  next_caps-has :
      (s : Bytes) (names : List Bytes) (set set' : CapSet) (j : ℕ) (b : Bool) (o : Option ℕ)
      → j < 64
      → ((c : ℕ) → o ≡ some c → c < 64)
      → ((set1 : CapSet)
          → collect_caps cap set1 names ≡ ok set'
          → has set' j ≡ (has set1 j || is_kept names j))
      → next_caps s names set b o ≡ ok set'
      → has set' j ≡ (has set j || ((not b && is_some_eq o j) || is_kept names j))
  next_caps-has s names set set' j true o k lt ih h = ih set h
  next_caps-has s names set set' j false none k lt ih h = cc
  next_caps-has s names set set' j false (some c) k lt ih h =
      ground (arith, ih (keep c set) h, has-keep c j set (lt c refl) k)

  -- The words that DropCapabilities collects hold what they held and what the names add.
  pub collect_caps-has :
      (names : List Bytes) (set set' : CapSet) (j : ℕ)
      → HasRange
      → j < 64
      → collect_caps cap set names ≡ ok set'
      → has set' j ≡ (has set j || is_kept names j)
  unfolding collect_caps is_kept
  collect_caps-has [] set set' j range k h = ground arith
  collect_caps-has (s ∷ names) set set' j range k h =
      next_caps-has s names set set' j (is_word (str "NONE") s) (parse_capability cap s) k
        (λ c e. parse_capability-lt s c range e)
        (λ set1 e. collect_caps-has names set1 set' j range k e) h

  fails_next :
      (s : Bytes) (names : List Bytes) (set : CapSet) (b : Bool) (o : Option ℕ)
      → ((set1 : CapSet) → (e : SecdError) × (collect_caps cap set1 names ≡ err e))
      → (e : SecdError) × (next_caps s names set b o ≡ err e)
  fails_next s names set true o ih = ih set
  fails_next s names set false none ih = (unknown_capability s, refl)
  fails_next s names set false (some c) ih = ih (keep c set)

  fails_here :
      (s : Bytes) (names : List Bytes) (set : CapSet) (b : Bool) (o : Option ℕ)
      → b ≡ false
      → o ≡ none
      → next_caps s names set b o ≡ err (unknown_capability s)
  fails_here s names set true o h k = cc
  fails_here s names set false none h k = refl
  fails_here s names set false (some c) h k = cc

  -- One unknown name makes the whole list fail.
  pub collect_caps-unknown :
      (before after : List Bytes) (s : Bytes) (set : CapSet)
      → is_word (str "NONE") s ≡ false
      → parse_capability cap s ≡ none
      → (e : SecdError) × (collect_caps cap set (before ++ s ∷ after) ≡ err e)
  unfolding collect_caps
  collect_caps-unknown [] after s set h k = (
    unknown_capability s,
    fails_here s after set (is_word (str "NONE") s) (parse_capability cap s) h k,
  )
  collect_caps-unknown (t ∷ before) after s set h k =
      fails_next t (before ++ s ∷ after) set (is_word (str "NONE") t) (parse_capability cap t)
        (λ set1. collect_caps-unknown before after s set1 h k)
