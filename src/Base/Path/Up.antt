-- ===== src/Base/Path/Up.antt =====
-- A cleaned path of filepath that is absolute has no component "..".
use a_from_scratch_linux_use.Base.{
  join, append-nil, true, false, List, [], ◌∷◌, ◌++◌, ◌==◌, ◌≡◌, ◌≢◌, refl, ◌||◌, if◌then◌else◌,
  Bytes, str, str_eq, has_prefix, is_nil, All, ℕ, Bool, arith, str_eq_iff, sym, subst, ◌∙◌, ap, ◌⊎◌,
  inl, inr,
}
use a_from_scratch_linux_use.Base.Path.{
  split_path, extend, clean, clean_step, clean_parts, join_reversed, join_path, dir, drop_last,
}

-- No component is "..".
abbrev pub NoUp : Bytes → Type 0
NoUp p = All (λ c. c ≢ str "..") (split_path p)

abbrev NoSlash : Bytes → Type 0
NoSlash p = All (λ c. c ≢ b'/') p

abbrev IsName : Bytes → Type 0
IsName p = NoSlash p × (p ≢ str "..")

extend-NoSlash :
    (c : ℕ) (ps : List Bytes) → c ≢ b'/' → All NoSlash ps → All NoSlash (extend (c ∷ []) ps)
extend-NoSlash c [] n h = ((n, tt), tt)
extend-NoSlash c (p ∷ ps) n (h, hs) = ((n, h), hs)

split_path-NoSlash : (s : Bytes) → All NoSlash (split_path s)
unfolding split_path
split_path-NoSlash [] = (tt, tt)
split_path-NoSlash (c ∷ s) = branch (c == b'/') refl (split_path-NoSlash s)
  where
    branch :
        (b : Bool)
        → (c == b'/') ≡ b
        → All NoSlash (split_path s)
        → All NoSlash (if b then [] ∷ split_path s else extend (c ∷ []) (split_path s))
    branch true e k = (tt, k)
    branch false e k = extend-NoSlash c (split_path s) (λ h. ground arith) k

extend_nil : (ps : List Bytes) → ps ≢ [] → extend [] ps ≡ ps
extend_nil [] n = elim (n refl) [ ]
extend_nil (p ∷ ps) n = refl

extend-extend :
    (c : ℕ) (p : Bytes) (ps : List Bytes) → extend (c ∷ []) (extend p ps) ≡ extend (c ∷ p) ps
extend-extend c p [] = refl
extend-extend c p (q ∷ ps) = refl

extend_ne_nil : (p : Bytes) (ps : List Bytes) → extend p ps ≢ []
extend_ne_nil p [] h = cc
extend_ne_nil p (q ∷ ps) h = cc

split_path_ne_nil : (s : Bytes) → split_path s ≢ []
unfolding split_path
split_path_ne_nil [] h = cc
split_path_ne_nil (c ∷ s) h = branch (c == b'/') h
  where
    branch : (b : Bool) → (if b then [] ∷ split_path s else extend (c ∷ []) (split_path s)) ≡ [] → ⊥
    branch true e = cc
    branch false e = extend_ne_nil (c ∷ []) (split_path s) e

split_path-step :
    (c : ℕ) (s : Bytes) → c ≢ b'/' → split_path (c ∷ s) ≡ extend (c ∷ []) (split_path s)
unfolding split_path
split_path-step c s n = ground arith

split_path-append :
    (p rest : Bytes) → NoSlash p → split_path (p ++ rest) ≡ extend p (split_path rest)
split_path-append [] rest h = sym (extend_nil (split_path rest) (split_path_ne_nil rest))
split_path-append (c ∷ p) rest (n, h) =
    split_path-step c (p ++ rest) n
    ∙ ap (extend (c ∷ [])) (split_path-append p rest h)
    ∙ extend-extend c p (split_path rest)

-- What may follow a component.
abbrev IsTail : Bytes → Type 0
IsTail rest = (rest ≡ []) ⊎ ((r : Bytes) × (rest ≡ b'/' ∷ r) × NoUp r)

extended-NoUp :
    (p rest : Bytes)
    → p ≢ str ".."
    → IsTail rest
    → All (λ c. c ≢ str "..") (extend p (split_path rest))
unfolding split_path
extended-NoUp p rest n (inl e) =
    subst (λ t. All (λ c. c ≢ str "..") (extend p (split_path t))) (sym e)
      (subst (λ t. t ≢ str "..") (sym (append-nil p)) n, tt)
extended-NoUp p rest n (inr (r, e, h)) =
    subst (λ t. All (λ c. c ≢ str "..") (extend p (split_path t))) (sym e)
      (subst (λ t. t ≢ str "..") (sym (append-nil p)) n, h)

append-NoUp : (p rest : Bytes) → IsName p → IsTail rest → NoUp (p ++ rest)
append-NoUp p rest (n, m) h =
    subst (All (λ c. c ≢ str "..")) (sym (split_path-append p rest n)) (extended-NoUp p rest m h)

join_reversed-NoUp :
    (ps : List Bytes) (rest : Bytes) → All IsName ps → IsTail rest → NoUp (join_reversed ps rest)
unfolding join_reversed split_path
join_reversed-NoUp [] rest h (inl e) = subst NoUp (sym e) ((λ k. cc), tt)
join_reversed-NoUp [] rest h (inr (r, e, k)) = subst NoUp (sym e) ((λ k. cc), k)
join_reversed-NoUp (p ∷ []) rest (h, hs) t = append-NoUp p rest h t
join_reversed-NoUp (p ∷ q ∷ ps) rest (h, hs) t =
    join_reversed-NoUp (q ∷ ps) (b'/' ∷ (p ++ rest)) hs
      (inr (p ++ rest, refl, append-NoUp p rest h t))

clean_step-IsName :
    (kept : List Bytes) (p : Bytes)
    → All IsName kept
    → NoSlash p
    → All IsName (clean_step true kept p)
unfolding clean_step
clean_step-IsName [] p h n = branch (is_nil p || str_eq p (str ".")) (str_eq p (str "..")) refl
  where
    branch :
        (a b : Bool)
        → str_eq p (str "..") ≡ b
        → All IsName (if a then [] else if b then [] else p ∷ [])
    branch true b e = tt
    branch false true e = tt
    branch false false e = ((n, λ k. ground (arith, str_eq_iff p (str ".."))), tt)
clean_step-IsName (q ∷ kept) p ((g, m), h) n =
    branch (is_nil p || str_eq p (str ".")) (str_eq p (str "..")) (str_eq q (str "..")) refl refl
  where
    branch :
        (a b c : Bool)
        → str_eq p (str "..") ≡ b
        → str_eq q (str "..") ≡ c
        → All IsName
            (if a then q ∷ kept else if b then (if c then p ∷ q ∷ kept else kept) else p ∷ q ∷ kept)
    branch true b c e f = ((g, m), h)
    branch false true true e f = elim (m ((str_eq_iff q (str "..")).0 f)) [ ]
    branch false true false e f = h
    branch false false c e f = ((n, λ k. ground (arith, str_eq_iff p (str ".."))), ((g, m), h))

clean_parts-IsName :
    (kept ps : List Bytes)
    → All IsName kept
    → All NoSlash ps
    → All IsName (clean_parts true kept ps)
unfolding clean_parts
clean_parts-IsName kept [] h n = h
clean_parts-IsName kept (p ∷ ps) h (m, n) =
    clean_parts-IsName (clean_step true kept p) ps (clean_step-IsName kept p h m) n

abbrev pub IsAbs : Bytes → Type 0
IsAbs p = has_prefix p (str "/") ≡ true

-- Clean leaves no ".." in an absolute path, which stays absolute.
pub clean-NoUp : (p : Bytes) → IsAbs p → NoUp (clean p)
unfolding clean split_path
clean-NoUp p h = rw (h) (
  (λ k. cc),
  join_reversed-NoUp (clean_parts true [] (split_path p)) []
      (clean_parts-IsName [] (split_path p) tt (split_path-NoSlash p)) (inl refl),
)

pub clean-IsAbs : (p : Bytes) → IsAbs p → IsAbs (clean p)
unfolding clean has_prefix
clean-IsAbs p h = ground arith

append-IsAbs : (p q : Bytes) → IsAbs p → IsAbs (p ++ q)
unfolding has_prefix
append-IsAbs [] q h = cc
append-IsAbs (c ∷ p) q h = h

pub join_path-NoUp : (p q : Bytes) → IsAbs p → NoUp (join_path p q)
unfolding join_path has_prefix
join_path-NoUp [] q h = cc
join_path-NoUp (c ∷ p) [] h = clean-NoUp (c ∷ p) h
join_path-NoUp (c ∷ p) (d ∷ q) h =
    clean-NoUp ((c ∷ p) ++ (b'/' ∷ d ∷ q)) (append-IsAbs (c ∷ p) (b'/' ∷ d ∷ q) h)

pub join_path-IsAbs : (p q : Bytes) → IsAbs p → IsAbs (join_path p q)
unfolding join_path has_prefix
join_path-IsAbs [] q h = cc
join_path-IsAbs (c ∷ p) [] h = clean-IsAbs (c ∷ p) h
join_path-IsAbs (c ∷ p) (d ∷ q) h =
    clean-IsAbs ((c ∷ p) ++ (b'/' ∷ d ∷ q)) (append-IsAbs (c ∷ p) (b'/' ∷ d ∷ q) h)

drop_last_ne_nil : (p : Bytes) (ps : List Bytes) → drop_last (p ∷ ps) ≢ []
unfolding drop_last
drop_last_ne_nil p [] h = cc
drop_last_ne_nil p (q ∷ ps) h = cc

join-IsAbs : (ps : List Bytes) → ps ≢ [] → IsAbs (join ([] ∷ ps) (str "/"))
unfolding join has_prefix
join-IsAbs [] h = elim (h refl) [ ]
join-IsAbs (p ∷ ps) h = refl

dropped-IsAbs : (ps : List Bytes) → ps ≢ [] → IsAbs (join (drop_last ([] ∷ ps)) (str "/"))
unfolding drop_last
dropped-IsAbs [] h = elim (h refl) [ ]
dropped-IsAbs (p ∷ ps) h = join-IsAbs (drop_last (p ∷ ps)) (drop_last_ne_nil p ps)

slash-IsAbs : (c : ℕ) (p : Bytes) → IsAbs (c ∷ p) → c ≡ b'/'
unfolding has_prefix
slash-IsAbs c p h = ground arith

dir_slash-IsAbs : (p : Bytes) → IsAbs (dir (b'/' ∷ p))
unfolding dir split_path
dir_slash-IsAbs p =
    clean-IsAbs (join (drop_last ([] ∷ split_path p)) (str "/"))
      (dropped-IsAbs (split_path p) (split_path_ne_nil p))

pub dir-IsAbs : (p : Bytes) → IsAbs p → IsAbs (dir p)
unfolding has_prefix
dir-IsAbs [] h = cc
dir-IsAbs (c ∷ p) h = subst (λ d. IsAbs (dir (d ∷ p))) (sym (slash-IsAbs c p h)) (dir_slash-IsAbs p)
