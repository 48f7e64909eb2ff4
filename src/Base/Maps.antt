-- ===== src/Base/Maps.antt =====
-- Go maps with strings as keys: association lists, in the order in which one `range` runs.
use mathlib.Core.Path.{◌≡◌, refl}
use mathlib.Core.Option.{Option, none, some}
use mathlib.Core.List.{List, [], ◌∷◌}
use a_from_scratch_linux_use.Base.Tests.{if◌then◌else◌}
use a_from_scratch_linux_use.Base.Text.{Bytes, str_eq, str_eq_iff}
use a_from_scratch_linux_use.Base.{arith}

module _ {A : Type 0} where
  -- `m[name]`
  unfoldable pub lookup : List (Bytes × A) → Bytes → Option A
  lookup [] name = none
  lookup ((k, a) ∷ m) name = if str_eq k name then some a else lookup m name

  -- `m[name] = a`
  unfoldable pub store : List (Bytes × A) → Bytes → A → List (Bytes × A)
  store [] name a = (name, a) ∷ []
  store ((k, b) ∷ m) name a = if str_eq k name then (k, a) ∷ m else (k, b) ∷ store m name a

  pub lookup-store :
      (m : List (Bytes × A)) (name other : Bytes) (a : A)
      → lookup (store m name a) other ≡ (if str_eq name other then some a else lookup m other)
  unfolding lookup store
  lookup-store [] name other a = refl
  lookup-store ((k, b) ∷ m) name other a = grind (
    arith,
    lookup-store m name other a,
    str_eq_iff k name,
    str_eq_iff k other,
    str_eq_iff name other,
  )
