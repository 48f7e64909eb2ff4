-- ===== src/Base/Io.antt =====
-- Calls on a world that may fail: what a call has changed stays changed after an error.
use a_from_scratch_linux_use.Base.{arith}
use mathlib.Core.Path.{◌≡◌, refl, ap}
use mathlib.Core.Bool.{Bool, true, false}
use mathlib.Core.Option.{Option, none, some}
use mathlib.Core.List.{List, [], ◌∷◌}

pub data Result (E A : Type 0) : Type 0 where
  ok : A → Result E A
  err : E → Result E A

abbrev pub Io : Type 0 → Type 0 → Type 0 → Type 0
Io W E A = W → W × Result E A

module _ {W E A : Type 0} where
  abbrev pub pure : A → Io W E A
  pure a w = (w, ok a)

  abbrev pub raise : E → Io W E A
  raise e w = (w, err e)

  abbrev pub from_result : Result E A → Io W E A
  from_result r w = (w, r)

  -- A value that may be missing, with the error of that.
  abbrev pub or_raise : Option A → E → Io W E A
  or_raise none e = raise e
  or_raise (some a) e = pure a

  abbrev pub answered : E → W × Option A → W × Result E A
  answered e (w, none) = (w, err e)
  answered e (w, some a) = (w, ok a)

  -- A call with a result, or an error.
  abbrev pub asks : (W → W × Option A) → E → Io W E A
  asks f e w = answered e (f w)

infixl 5 ◌>>=◌ ◌>>◌
abbrev pub ◌>>=◌ : {W E A B : Type 0} → Io W E A → (A → Io W E B) → Io W E B
◌>>=◌ m f w = let (w', r) = m w in elim r [ ok a ↦ f a w' | err e ↦ (w', err e) ]

abbrev pub ◌>>◌ : {W E B : Type 0} → Io W E (Unit {0}) → Io W E B → Io W E B
m >> k = m >>= λ _. k

module _ {W E : Type 0} where
  abbrev pub checked : E → W × Bool → W × Result E (Unit {0})
  checked e (w, true) = (w, ok tt)
  checked e (w, false) = (w, err e)

  -- A call that says whether it succeeds.
  abbrev pub call : (W → W × Bool) → E → Io W E (Unit {0})
  call f e w = checked e (f w)

  -- A call whose result is not looked at.
  abbrev pub ignoring : {A : Type 0} → (W → W × A) → Io W E (Unit {0})
  ignoring f w = let (w', a) = f w in (w', ok tt)

  abbrev pub modify : (W → W) → Io W E (Unit {0})
  modify f w = (f w, ok tt)

  abbrev pub gets : {A : Type 0} → (W → A) → Io W E A
  gets f w = (w, ok (f w))

  -- `if c { m }`
  abbrev pub when : Bool → Io W E (Unit {0}) → Io W E (Unit {0})
  when true m = m
  when false m = pure tt

  -- `if c { return e }`
  abbrev pub raise_if : Bool → E → Io W E (Unit {0})
  raise_if true e = raise e
  raise_if false e = pure tt

  -- A loop over a list that stops at the first error.
  abbrev pub for_each : {A : Type 0} → List A → (A → Io W E (Unit {0})) → Io W E (Unit {0})
  for_each [] f = pure tt
  for_each (x ∷ xs) f = f x >> for_each xs f

pub err-ne-ok : {E A : Type 0} (e : E) (a : A) → ◌≡◌ {A = Result E A} (err e) (ok a) → ⊥
err-ne-ok e a h = cc

-- Inversion of a bind that succeeds.
pub >>=-eq-ok :
    {W E A B : Type 0} (m : Io W E A) (f : A → Io W E B) (w w' : W) (b : B)
    → (m >>= f) w ≡ (w', ok b)
    → (w1 : W) × (a : A) × (m w ≡ (w1, ok a)) × (f a w1 ≡ (w', ok b))
>>=-eq-ok {W} {E} {A} {B} m f w w' b h = invert (m w) refl h
  where
    invert :
        (r : W × Result E A)
        → m w ≡ r
        → ◌≡◌ {A = W × Result E B} (elim r.1 [ ok a ↦ f a r.0 | err e ↦ (r.0, err e) ]) (w', ok b)
        → (w1 : W) × (a : A) × (m w ≡ (w1, ok a)) × (f a w1 ≡ (w', ok b))
    invert (w1, ok a) e k = (w1, a, e, k)
    invert (w1, err x) e k = elim (err-ne-ok x b (ap (λ t. t.1) k)) [ ]

-- A call that has succeeded.
pub call-eq-ok :
    {W E : Type 0} (f : W → W × Bool) (e : E) (w w' : W)
    → call f e w ≡ (w', ok tt)
    → f w ≡ (w', true)
call-eq-ok {W} {E} f e w w' h = invert (f w) h
  where
    invert :
        (r : W × Bool)
        → ◌≡◌ {A = W × Result E (Unit {0})} (checked e r) (w', ok tt)
        → r ≡ (w', true)
    invert (v, true) h = ap (λ t. (t.0, true)) h
    invert (v, false) h = elim (err-ne-ok e tt (ap (λ t. t.1) h)) [ ]

-- A call with a result that has succeeded.
pub asks-eq-ok :
    {W E A : Type 0} (f : W → W × Option A) (e : E) (w w' : W) (a : A)
    → asks f e w ≡ (w', ok a)
    → f w ≡ (w', some a)
asks-eq-ok {W} {E} {A} f e w w' a h = invert (f w) h
  where
    invert :
        (r : W × Option A) → ◌≡◌ {A = W × Result E A} (answered e r) (w', ok a) → r ≡ (w', some a)
    invert (v, some b) h = ground arith
    invert (v, none) h = elim (err-ne-ok e a (ap (λ t. t.1) h)) [ ]
