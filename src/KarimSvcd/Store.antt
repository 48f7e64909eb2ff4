-- ===== src/KarimSvcd/Store.antt =====
-- The managed services of cmd/karim-svcd/main.go. A *svcd.ManagedService is its index in the list
-- of all that were made; the map managedServices is an association list, in the order in which one
-- `range` runs over it. A service that is no longer in the map lives on: its monitor has it.
pub mod Maps
use a_from_scratch_linux_use.Base.Maps.{store, lookup}
use a_from_scratch_linux_use.Svcd.Supervisor.{stop, start, StartError, Os, ManagedService}
use a_from_scratch_linux_use.Base.{
  zero, length, str_eq, suc, [], if◌then◌else◌, some, none, ◌++◌, ◌∷◌, Option, Bytes, List, ℕ,
}

module _ {A : Type 0} where
  -- The value at an index.
  unfoldable pub deref : List A → ℕ → Option A
  deref [] i = none
  deref (x ∷ xs) zero = some x
  deref (x ∷ xs) (suc i) = deref xs i

  unfoldable pub set_at : List A → ℕ → A → List A
  set_at [] i a = []
  set_at (x ∷ xs) zero a = a ∷ xs
  set_at (x ∷ xs) (suc i) a = x ∷ set_at xs i a

-- The supervisor with its operating system.
pub record State (F W : Type 0) : Type 0 where
  pub services : List (ManagedService F)
  pub managed : List (Bytes × ℕ)
  pub world : W

module _ {F W : Type 0} where
  -- The service of a name.
  abbrev pub find_service : State F W → Bytes → Option ℕ
  find_service st name = lookup st.managed name

  -- `managedServices[name] = ms` for a service that has just been made.
  unfoldable pub add_service : ManagedService F → State F W → State F W
  add_service ms st = record st {
    services = st.services ++ ms ∷ [];
    managed = store st.managed ms.spec.name (length st.services);
  }

  module _ (os : Os F W) where
    abbrev pub started_at :
        ℕ → State F W → ManagedService F × W × Option StartError → State F W × Option StartError
    started_at i st (ms, w, e) = (record st { services = set_at st.services i ms; world = w }, e)

    -- ms.Start() of the service at an index; there is always one.
    unfoldable pub start_at : ℕ → State F W → State F W × Option StartError
    start_at i st = elim (deref st.services i) [
      | none ↦ (st, none)
      | some ms ↦ started_at i st (start os ms st.world)
    ]

    abbrev pub stopped_at : ℕ → State F W → ManagedService F × W → State F W
    stopped_at i st (ms, w) = record st { services = set_at st.services i ms; world = w }

    -- ms.Stop()
    unfoldable pub stop_at : ℕ → State F W → State F W
    stop_at i st = elim (deref st.services i) [
      | none ↦ st
      | some ms ↦ stopped_at i st (stop os ms st.world)
    ]
