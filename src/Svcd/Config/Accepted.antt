-- ===== src/Svcd/Config/Accepted.antt =====
-- Where unquote of internal/svcd/config.go panics.
use a_from_scratch_linux_use.Base.{
  ℕ, Bool, true, false, Option, none, some, [], ◌∷◌, ◌||◌, ltb, if◌then◌else◌, arith, Bytes, length,
  has_prefix, has_suffix, str_eq, trim_space, ◌≡◌, ◌≢◌, ◌↔◌, ◌⊎◌, inl, inr,
}
use a_from_scratch_linux_use.Svcd.Config.Values.{
  unquote, inner, enclosed, double_quote, single_quote,
}

-- unquote of a trimmed text.
abbrev unquoted : Bytes → Option Bytes
unquoted t =
    if enclosed t (double_quote ∷ []) (double_quote ∷ [])
      || enclosed t (single_quote ∷ []) (single_quote ∷ [])
    then if ltb (length t) 2 then none else some (inner t)
    else some t

sliced :
    (b short : Bool) (x y : Bytes)
    → short ≡ false
    → (if b then if short then none else some x else some y) ≢ none
sliced true true x y h e = cc
sliced true false x y h e = cc
sliced false short x y h e = cc

two : {c : ℕ} (d : ℕ) (t : Bytes) (q : ℕ) → c ∷ d ∷ t ≡ q ∷ [] → ⊥
two d t q h = cc

unquoted_panics :
    (t : Bytes) → (unquoted t ≡ none) ↔ ((t ≡ double_quote ∷ []) ⊎ (t ≡ single_quote ∷ []))
unfolding has_prefix has_suffix str_eq
unquoted_panics [] = ground arith
unquoted_panics (c ∷ []) = ground arith
unquoted_panics (c ∷ d ∷ t) = (
  λ h.
      elim (sliced _ (ltb (length (c ∷ d ∷ t)) 2) (inner (c ∷ d ∷ t)) (c ∷ d ∷ t) (ground arith)
        h) [ ],
  λ h. elim h [
    | inl e ↦ elim (two d t double_quote e) [ ]
    | inr e ↦ elim (two d t single_quote e) [ ]
  ],
)

-- unquote panics exactly on a text that is, without the blanks around it, one quote character.
pub unquote_panics :
    (s : Bytes)
    → (unquote s ≡ none) ↔ ((trim_space s ≡ double_quote ∷ []) ⊎ (trim_space s ≡ single_quote ∷ []))
unfolding unquote
unquote_panics s = unquoted_panics (trim_space s)
