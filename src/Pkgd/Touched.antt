-- ===== src/Pkgd/Touched.antt =====
-- What the unpacking of a layer by internal/pkgd may touch, in terms of the texts of paths.
use a_from_scratch_linux_use.Base.Path.Up.{clean-NoUp, dir-IsAbs, join_path-IsAbs, IsAbs, NoUp}
use a_from_scratch_linux_use.Base.Path.{join_path, dir}
use a_from_scratch_linux_use.Pkgd.Paths.{link_destination, in_root}
use a_from_scratch_linux_use.Base.{
  str_eq_iff, append_assoc, ◌∙◌, [], ◌≢◌, ◌++◌, refl, inr, inl, sym, subst, if◌then◌else◌, arith,
  Bool, All, false, str, has_prefix, true, ◌∷◌, ◌≡◌, ◌⊎◌, Bytes,
}

-- A call that changes what a path names.
pub data Touch : Type 0 where
  opens makes removes removes_all : Bytes → Touch
  opens_beneath : Bytes → Touch
  links symlinks : Bytes → Bytes → Touch

-- The path is the root, or follows it behind a "/".
abbrev pub Below : Bytes → Bytes → Type 0
Below root p = (p ≡ root) ⊎ ((rest : Bytes) × (p ≡ root ++ (b'/' ∷ rest)))

-- Such a path, and no component of it is "..".
abbrev pub InRoot : Bytes → Bytes → Type 0
InRoot root p = Below root p × NoUp p

-- The name of an entry as os.ReadDir gives it.
abbrev pub IsEntryName : Bytes → Type 0
IsEntryName e = (e ≢ []) × (e ≢ str ".") × (e ≢ str "..") × All (λ c. c ≢ b'/') e

-- What may be touched: paths in the root; the directory of one (MkdirAll of a parent), which for
-- the root itself is the directory that the root is in; and the entries of one that is a
-- directory. A file that is opened beneath the root has a relative path that does not begin with
-- "..", and a symbolic link leads into the root, where a link to an absolute path is read below it.
abbrev pub Allowed : Bytes → Touch → Type 0
Allowed root (opens p) = InRoot root p
Allowed root (makes p) = InRoot root p ⊎ ((q : Bytes) × InRoot root q × (p ≡ dir q))
Allowed root (removes p) = InRoot root p
Allowed root (removes_all p) =
    InRoot root p
    ⊎ ((d : Bytes) × (e : Bytes) × InRoot root d × IsEntryName e × (p ≡ join_path d e))
Allowed root (opens_beneath p) = has_prefix p (str "..") ≡ false
Allowed root (links from p) = InRoot root from × InRoot root p
Allowed root (symlinks link p) = InRoot root p × InRoot root (link_destination root p link)

has_prefix-append : (s p : Bytes) → has_prefix s p ≡ true → (r : Bytes) × (s ≡ p ++ r)
unfolding has_prefix
has_prefix-append s [] h = (s, refl)
has_prefix-append [] (d ∷ p) h = cc
has_prefix-append (c ∷ s) (d ∷ p) h =
    let (r, e) = has_prefix-append s p (ground arith) in (r, ground (arith, e))

-- What the test of the source means.
pub in_root-Below : (root p : Bytes) → in_root root p ≡ true → Below root p
unfolding in_root
in_root-Below root p h = branch (has_prefix p (root ++ str "/")) refl
  where
    branch : (b : Bool) → has_prefix p (root ++ str "/") ≡ b → Below root p
    branch true e =
        let (rest, f) = has_prefix-append p (root ++ str "/") e in
        inr (rest, f ∙ append_assoc root (str "/") rest)
    branch false e = inl ((str_eq_iff p root).0 (ground arith))

pub in_root-InRoot : (root p : Bytes) → in_root root p ≡ true → NoUp p → InRoot root p
in_root-InRoot root p h n = (in_root-Below root p h, n)

prefix-IsAbs : (root rest : Bytes) → IsAbs root → IsAbs (root ++ rest)
unfolding has_prefix
prefix-IsAbs [] rest h = cc
prefix-IsAbs (c ∷ root) rest h = h

pub InRoot-IsAbs : (root p : Bytes) → IsAbs root → InRoot root p → IsAbs p
InRoot-IsAbs root p h (inl e, n) = subst IsAbs (sym e) h
InRoot-IsAbs root p h (inr (rest, e), n) = subst IsAbs (sym e) (prefix-IsAbs root (b'/' ∷ rest) h)

pub link_destination-NoUp :
    (root target link : Bytes)
    → IsAbs root
    → IsAbs target
    → NoUp (link_destination root target link)
unfolding link_destination
link_destination-NoUp root target link h i =
    clean-NoUp (if b then join_path root link else join_path (dir target) link) (branch b)
  where
    b : Bool
    b = has_prefix link (str "/")

    branch : (b : Bool) → IsAbs (if b then join_path root link else join_path (dir target) link)
    branch true = join_path-IsAbs root link h
    branch false = join_path-IsAbs (dir target) link (dir-IsAbs target i)
