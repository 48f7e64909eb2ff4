-- ===== src/Base/Path.antt =====
-- The functions of package path/filepath that the program calls, on Unix paths.
pub mod Up
use a_from_scratch_linux_use.Base.{
  map, not, none, some, Option, join, Bool, true, false, List, [], ◌∷◌, ◌++◌, ◌==◌, ◌≡◌, refl, ◌||◌,
  if◌then◌else◌, Bytes, str, str_eq, has_prefix, is_nil,
}

abbrev pub extend : Bytes → List Bytes → List Bytes
extend c [] = c ∷ []
extend c (p ∷ ps) = (c ++ p) ∷ ps

-- strings.Split(s, "/")
unfoldable pub split_path : Bytes → List Bytes
split_path [] = [] ∷ []
split_path (c ∷ s) =
    let rest = split_path s in if c == b'/' then [] ∷ rest else extend (c ∷ []) rest

-- One component on the reversed list of those kept: "" and "." go, ".." takes a name back, and
-- stays where there is none to take, but not at the root.
unfoldable pub clean_step : Bool → List Bytes → Bytes → List Bytes
clean_step rooted [] p =
    if is_nil p || str_eq p (str ".")
    then []
    else if str_eq p (str "..")
    then (if rooted then [] else p ∷ [])
    else p ∷ []
clean_step rooted (q ∷ kept) p =
    if is_nil p || str_eq p (str ".")
    then q ∷ kept
    else if str_eq p (str "..")
    then (if str_eq q (str "..") then p ∷ q ∷ kept else kept)
    else p ∷ q ∷ kept

unfoldable pub clean_parts : Bool → List Bytes → List Bytes → List Bytes
unfolding clean_step
clean_parts rooted kept [] = kept
clean_parts rooted kept (p ∷ ps) = clean_parts rooted (clean_step rooted kept p) ps

-- The components joined by "/", from the reversed list.
unfoldable pub join_reversed : List Bytes → Bytes → Bytes
join_reversed [] rest = rest
join_reversed (p ∷ []) rest = p ++ rest
join_reversed (p ∷ q ∷ ps) rest = join_reversed (q ∷ ps) (b'/' ∷ (p ++ rest))

abbrev or_dot : Bytes → Bytes
or_dot [] = str "."
or_dot (c ∷ s) = c ∷ s

-- filepath.Clean
unfoldable pub clean : Bytes → Bytes
unfolding clean_parts join_reversed split_path has_prefix
clean p =
    if has_prefix p (str "/")
    then b'/' ∷ join_reversed (clean_parts true [] (split_path p)) []
    else or_dot (join_reversed (clean_parts false [] (split_path p)) [])

-- filepath.Join(a, b)
unfoldable pub join_path : Bytes → Bytes → Bytes
unfolding clean
join_path [] [] = []
join_path [] (c ∷ b) = clean (c ∷ b)
join_path (c ∷ a) [] = clean (c ∷ a)
join_path (c ∷ a) (d ∷ b) = clean ((c ∷ a) ++ (b'/' ∷ d ∷ b))

-- The last component that is not empty.
last_part : Bytes → List Bytes → Bytes
last_part found [] = found
last_part found (p ∷ ps) = last_part (if is_nil p then found else p) ps

-- filepath.Base
unfoldable pub base : Bytes → Bytes
unfolding last_part split_path
base [] = str "."
base (c ∷ p) = last_part (str "/") (split_path (c ∷ p))

-- The components but the last one, which becomes empty: what stands before the last "/", with it.
unfoldable pub drop_last : List Bytes → List Bytes
drop_last [] = []
drop_last (p ∷ []) = [] ∷ []
drop_last (p ∷ q ∷ ps) = p ∷ drop_last (q ∷ ps)

-- filepath.Dir
unfoldable pub dir : Bytes → Bytes
unfolding clean drop_last join
dir p = clean (join (drop_last (split_path p)) (str "/"))

named_parts : List Bytes → List Bytes
named_parts [] = []
named_parts (p ∷ ps) = if is_nil p || str_eq p (str ".") then named_parts ps else p ∷ named_parts ps

-- The way from a base to a target: what they share goes, and each component of the base that is
-- left gives a "..". There is none out of a base that leaves by "..".
way : List Bytes → List Bytes → Option (List Bytes)
way [] ts = some ts
way (b ∷ bs) [] = if str_eq b (str "..") then none else some (str ".." ∷ map (λ x. str "..") bs)
way (b ∷ bs) (t ∷ ts) =
    let further = way bs ts in
    if str_eq b t
    then further
    else if str_eq b (str "..")
    then none
    else some (map (λ x. str "..") (b ∷ bs) ++ t ∷ ts)

-- filepath.Rel, none where it is an error.
unfoldable pub rel : Bytes → Bytes → Option Bytes
unfolding clean way named_parts join
rel from to =
    let b = clean from in
    let t = clean to in
    if (if has_prefix b (str "/") then not (has_prefix t (str "/")) else has_prefix t (str "/"))
    then none
    else elim (way (named_parts (split_path b)) (named_parts (split_path t))) [
      | none ↦ none
      | some ps ↦ some (or_dot (join ps (str "/")))
    ]

-- filepath.IsAbs
abbrev pub is_abs : Bytes → Bool
is_abs p = has_prefix p (str "/")

path_tests :
    (clean (str "a/../../b//./c/") ≡ str "../b/c")
    × (clean (str "/../x") ≡ str "/x")
    × (clean [] ≡ str ".")
    × (join_path (str "/mnt/") (str "../bin/sh") ≡ str "/bin/sh")
    × (base (str "/bin/sh/") ≡ str "sh")
    × (dir (str "/bin/sh") ≡ str "/bin")
    × (dir (str "sh") ≡ str ".")
    × (rel (str "/srv/root") (str "/srv/root/a/b") ≡ some (str "a/b"))
    × (rel (str "/srv/root") (str "/srv/x") ≡ some (str "../x"))
unfolding clean join_path base str_eq dir rel
path_tests = (refl, refl, refl, refl, refl, refl, refl, refl, refl)
