-- ===== src/Base/Keeps.antt =====
-- Calls that keep a predicate of the world, whether they succeed or not.
use a_from_scratch_linux_use.Base.{
  if◌then◌else◌, refl, ◌≡◌, List, [], ◌∷◌, Bool, true, false, Option, none, some,
}
use a_from_scratch_linux_use.Base.Io.{
  Io, Result, ok, err, call, checked, asks, answered, for_each, when, raise_if, ◌>>=◌, ◌>>◌,
}

-- The action keeps the predicate.
abbrev pub Keeps : {W E A : Type 0} → (W → Type 0) → Io W E A → Type 0
Keeps {W} P m = (w : W) → P w → P (m w).0

module _ {W E : Type 0} (P : W → Type 0) where
  abbrev next_of : {A B : Type 0} → (A → Io W E B) → W × Result E A → W × Result E B
  next_of f (w, r) = elim r [ ok a ↦ f a w | err e ↦ (w, err e) ]

  next-Keeps :
      {A B : Type 0} (f : A → Io W E B) (r : W × Result E A)
      → ((a : A) → r.1 ≡ ok a → Keeps P (f a))
      → P r.0
      → P (next_of f r).0
  next-Keeps f (w, ok a) h p = h a refl w p
  next-Keeps f (w, err e) h p = p

  pub bind-Keeps :
      {A B : Type 0} (m : Io W E A) (f : A → Io W E B)
      → Keeps P m
      → ((a : A) → Keeps P (f a))
      → Keeps P (m >>= f)
  bind-Keeps m f h k w p = next-Keeps f (m w) (λ a e. k a) (h w p)

  -- A result of which more is known.
  pub result-Keeps :
      {A B : Type 0} (Q : A → Type 0) (r : W → Result E A) (f : A → Io W E B)
      → ((w : W) (a : A) → r w ≡ ok a → Q a)
      → ((a : A) → Q a → Keeps P (f a))
      → Keeps P ((λ w. (w, r w)) >>= f)
  result-Keeps Q r f h k w p = next-Keeps f (w, r w) (λ a e. k a (h w a e)) p

  checked-Keeps : (e : E) (r : W × Bool) → P r.0 → P (checked e r).0
  checked-Keeps e (w, true) p = p
  checked-Keeps e (w, false) p = p

  pub call-Keeps : (f : W → W × Bool) (e : E) → ((w : W) → P w → P (f w).0) → Keeps P (call f e)
  call-Keeps f e h w p = checked-Keeps e (f w) (h w p)

  answered-Keeps : {A : Type 0} (e : E) (r : W × Option A) → P r.0 → P (answered e r).0
  answered-Keeps e (w, none) p = p
  answered-Keeps e (w, some a) p = p

  pub asks-Keeps :
      {A : Type 0} (f : W → W × Option A) (e : E) → ((w : W) → P w → P (f w).0) → Keeps P (asks f e)
  asks-Keeps f e h w p = answered-Keeps e (f w) (h w p)

  pub when-Keeps : (b : Bool) (m : Io W E (Unit {0})) → (b ≡ true → Keeps P m) → Keeps P (when b m)
  when-Keeps true m h w p = h refl w p
  when-Keeps false m h w p = p

  pub for_each-Keeps :
      {A : Type 0} (xs : List A) (f : A → Io W E (Unit {0}))
      → ((a : A) → Keeps P (f a))
      → Keeps P (for_each xs f)
  for_each-Keeps [] f h w p = p
  for_each-Keeps (x ∷ xs) f h w p =
      bind-Keeps (f x) (λ a. for_each xs f) (h x) (λ a. for_each-Keeps xs f h) w p

  pub if-Keeps :
      {A : Type 0} (b : Bool) (m n : Io W E A)
      → Keeps P m
      → Keeps P n
      → Keeps P (if b then m else n)
  if-Keeps true m n h k = h
  if-Keeps false m n h k = k

  -- An answer of which nothing is known.
  pub reads-Keeps :
      {A B : Type 0} (r : W → Result E A) (f : A → Io W E B)
      → ((a : A) → Keeps P (f a))
      → Keeps P ((λ w. (w, r w)) >>= f)
  reads-Keeps r f k w p = next-Keeps f (w, r w) (λ a e. k a) p

  pub raise_if-Keeps :
      {A : Type 0} (b : Bool) (e : E) (m : Io W E A) → Keeps P m → Keeps P (raise_if b e >> m)
  raise_if-Keeps true e m h w p = p
  raise_if-Keeps false e m h w p = h w p
