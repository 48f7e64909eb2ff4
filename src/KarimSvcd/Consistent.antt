-- ===== src/KarimSvcd/Consistent.antt =====
-- What holds of the managed services of cmd/karim-svcd/main.go at all times.
pub mod Steps
use a_from_scratch_linux_use.Base.Maps.{lookup-store, lookup}
use a_from_scratch_linux_use.Svcd.Spec.{ServiceSpec}
use a_from_scratch_linux_use.KarimSvcd.Store.Maps.{deref-lt, deref-append, deref-set_at}
use a_from_scratch_linux_use.Svcd.Supervisor.Run.{
  happen-IsValid, happen-Counts, ended, started, happen, Event, IsValid,
}
use a_from_scratch_linux_use.Svcd.Supervisor.{
  new_managed_service, StartError, stop, start, Os, ManagedService,
}
use a_from_scratch_linux_use.KarimSvcd.Store.{
  stopped_at, started_at, stop_at, start_at, add_service, State, set_at, deref,
}
use a_from_scratch_linux_use.Base.{
  Bool, none, Option, ap, subst, inr, inl, Bool-cases, refl, zero, str_eq_refl, suc, str_eq_iff,
  arith, length, str_eq, ◌<◌, [], ◌==◌, if◌then◌else◌, ◌∷◌, some, Bytes, ◌++◌, ◌≡◌, List, ℕ,
}

-- Every name of the map leads to a service of that name, and all services that were made are
-- valid, the replaced ones too.
pub record IsConsistent {F W : Type 0} (st : State F W) : Type 0 where
  pub named :
      (name : Bytes) (i : ℕ)
      → lookup st.managed name ≡ some i
      → (ms : ManagedService F) × (deref st.services i ≡ some ms) × (ms.spec.name ≡ name)
  pub valid : (i : ℕ) (ms : ManagedService F) → deref st.services i ≡ some ms → IsValid ms

same-IsValid : {F : Type 0} (ms other : ManagedService F) → ms ≡ other → IsValid ms → IsValid other
same-IsValid ms other e v = subst IsValid e v

pub new_managed_service-IsValid :
    {F : Type 0} (spec : ServiceSpec F) (b : Bool) → IsValid (new_managed_service spec b)
unfolding new_managed_service
new_managed_service-IsValid spec b = tt

module _ {F W : Type 0} where
  abbrev pub put_service : State F W → ℕ → ManagedService F → W → State F W
  put_service st i ms w = record st { services = set_at st.services i ms; world = w }

  -- Another state of a service with the same name.
  pub put_service-IsConsistent :
      (st : State F W) (i : ℕ) (old ms : ManagedService F) (w : W)
      → IsConsistent st
      → deref st.services i ≡ some old
      → ms.spec ≡ old.spec
      → IsValid ms
      → IsConsistent (put_service st i ms w)
  put_service-IsConsistent st i old ms w h found same v = record {
    named = λ name j e.
        let (other, f, g) = h.named name j e in
        elim (Bool-cases (i == j)) [
          | inl t ↦ (
            ms,
            ground (arith, deref-set_at st.services i j ms old found),
            grind (arith, ap (λ s. s.name) same),
          )
          | inr t ↦ (other, ground (arith, deref-set_at st.services i j ms old found), g)
        ];
    valid = λ j other e. elim (Bool-cases (i == j)) [
      | inl t ↦ same-IsValid ms other (ground (arith, deref-set_at st.services i j ms old found)) v
      | inr t ↦ h.valid j other (ground (arith, deref-set_at st.services i j ms old found))
    ];
  }

  pub add_service-IsConsistent :
      (st : State F W) (ms : ManagedService F)
      → IsConsistent st
      → IsValid ms
      → IsConsistent (add_service ms st)
  unfolding add_service
  add_service-IsConsistent st ms h v = record {
    named = λ name j e. elim (Bool-cases (str_eq ms.spec.name name)) [
      | inl t ↦ (
        ms,
        ground (
          arith,
          deref-append st.services ms j,
          lookup-store st.managed ms.spec.name name (length st.services),
        ),
        (str_eq_iff ms.spec.name name).0 t,
      )
      | inr t ↦
          let (other, f, g) =
            h.named name j
              (ground (arith, lookup-store st.managed ms.spec.name name (length st.services))) in
          (other, ground (arith, deref-append st.services ms j, deref-lt st.services j other f), g)
    ];
    valid = λ j other e. elim (Bool-cases (j == length st.services)) [
      | inl t ↦ same-IsValid ms other (ground (arith, deref-append st.services ms j)) v
      | inr t ↦ h.valid j other (ground (arith, deref-append st.services ms j))
    ];
  }

  -- Nothing but the world changes.
  pub world-IsConsistent :
      (st : State F W) (w : W) → IsConsistent st → IsConsistent (record st { world = w })
  world-IsConsistent st w h = record { named = h.named; valid = h.valid }

  module _ (os : Os F W) where
    -- An event of one service.
    abbrev at : Option (ManagedService F) → Event → ℕ → State F W → State F W
    at none e i st = st
    at (some ms) e i st = let r = happen os e ms st.world in put_service st i r.0 r.1

    -- One event of the service at an index.
    abbrev pub happen_at : Event → ℕ → State F W → State F W
    happen_at e i st = at (deref st.services i) e i st

    pub happen_at-IsConsistent :
        (e : Event) (i : ℕ) (st : State F W) → IsConsistent st → IsConsistent (happen_at e i st)
    happen_at-IsConsistent e i st h = branch (deref st.services i) refl
      where
        branch :
            (o : Option (ManagedService F)) → deref st.services i ≡ o → IsConsistent (at o e i st)
        branch none k = h
        branch (some ms) k =
            let r = happen os e ms st.world in
            put_service-IsConsistent st i ms r.0 r.1 h k (happen-Counts os e ms st.world).0
              (happen-IsValid os e ms st.world (h.valid i ms k))

    abbrev pub started_or :
        ℕ → State F W → Option (ManagedService F) → State F W × Option StartError
    started_or i st none = (st, none)
    started_or i st (some ms) = started_at os i st (start os ms st.world)

    started_or-at :
        (i : ℕ) (st : State F W) (o : Option (ManagedService F))
        → (started_or i st o).0 ≡ at o started i st
    started_or-at i st none = refl
    started_or-at i st (some ms) = refl

    pub start_at-happen : (i : ℕ) (st : State F W) → (start_at os i st).0 ≡ happen_at started i st
    unfolding start_at
    start_at-happen i st = started_or-at i st (deref st.services i)

    pub stop_at-happen : (i : ℕ) (st : State F W) → stop_at os i st ≡ happen_at ended i st
    unfolding stop_at
    stop_at-happen i st = branch (deref st.services i)
      where
        branch :
            (o : Option (ManagedService F))
            → ◌≡◌ {A = State F W}
                (elim o [ none ↦ st | some ms ↦ stopped_at os i st (stop os ms st.world) ])
                (at o ended i st)
        branch none = refl
        branch (some ms) = refl
