-- ===== src/KarimSvcd/Starts.antt =====
-- What the start of a service that has just been added, and the stop of an older one, leave in
-- cmd/karim-svcd/main.go.
use a_from_scratch_linux_use.Base.Maps.{lookup}
use a_from_scratch_linux_use.KarimSvcd.Store.Maps.{
  length-set_at, deref-lt, deref-set_at, deref-append,
}
use a_from_scratch_linux_use.Svcd.Supervisor.Halts.{stop-halts, start-running}
use a_from_scratch_linux_use.KarimSvcd.Consistent.{IsConsistent}
use a_from_scratch_linux_use.Svcd.Supervisor.Run.{IsValid}
use a_from_scratch_linux_use.KarimSvcd.Store.{
  started_at, stopped_at, add_service, deref, start_at, stop_at, State,
}
use a_from_scratch_linux_use.Svcd.Supervisor.{start, stop, StartError, is_running, ManagedService}
use a_from_scratch_linux_use.KarimSvcd.Bridge.{stop_existing, Calls}
use a_from_scratch_linux_use.Svcd.Spec.{ServiceSpec}
use a_from_scratch_linux_use.Base.{
  [], ◌∷◌, ◌++◌, ◌∙◌, ap, sym, arith, subst, refl, false, true, none, length, Bytes, some, ◌≡◌,
  Option, List, ℕ,
}

module _ {F : Type 0} where
  -- The service at an index runs, with this specification.
  abbrev pub Runs : List (ManagedService F) → ℕ → ServiceSpec F → Type 0
  Runs services i spec =
      (ms : ManagedService F) × (deref services i ≡ some ms)
      × (ms.spec ≡ spec)
      × (is_running ms.state ≡ true)

  -- The service at an index, if there is one, is not in the state running.
  abbrev pub IsHalted : List (ManagedService F) → Option ℕ → Type 0
  IsHalted services none = Unit
  IsHalted services (some i) =
      (ms : ManagedService F) × (deref services i ≡ some ms) × (is_running ms.state ≡ false)

abbrev pub ap_managed : {F W : Type 0} → State F W → List (Bytes × ℕ)
ap_managed st = st.managed

abbrev services_of : {F W : Type 0} → State F W → List (ManagedService F)
services_of st = st.services

module _ {F W H : Type 0} (c : Calls F W H) where
  stop_at_found :
      (i : ℕ) (st : State F W) (ms : ManagedService F)
      → deref st.services i ≡ some ms
      → stop_at c.os i st ≡ stopped_at c.os i st (stop c.os ms st.world)
  unfolding stop_at
  stop_at_found i st ms h = rw (h, stop_at)

  start_at_found :
      (i : ℕ) (st : State F W) (ms : ManagedService F)
      → deref st.services i ≡ some ms
      → start_at c.os i st ≡ started_at c.os i st (start c.os ms st.world)
  unfolding start_at
  start_at_found i st ms h = rw (h, start_at)

  stop_at-halts :
      (i : ℕ) (st : State F W) (ms : ManagedService F)
      → deref st.services i ≡ some ms
      → IsValid ms
      → IsHalted (stop_at c.os i st).services (some i)
  stop_at-halts i st ms h v =
      subst (λ t. IsHalted t.services (some i)) (sym (stop_at_found i st ms h))
        (
          (stop c.os ms st.world).0,
          ground (arith, deref-set_at st.services i i (stop c.os ms st.world).0 ms h),
          stop-halts c.os ms st.world v,
        )

  -- Stopping changes no name.
  stop_at-managed : (i : ℕ) (st : State F W) → (stop_at c.os i st).managed ≡ st.managed
  unfolding stop_at
  stop_at-managed i st = branch (deref st.services i)
    where
      branch :
          (o : Option (ManagedService F))
          → ap_managed
              (elim o [ none ↦ st | some ms ↦ stopped_at c.os i st (stop c.os ms st.world) ])
            ≡ st.managed
      branch none = refl
      branch (some ms) = refl

  -- Stopping makes no service.
  stop_at-length :
      (i : ℕ) (st : State F W) → length (stop_at c.os i st).services ≡ length st.services
  unfolding stop_at
  stop_at-length i st = branch (deref st.services i)
    where
      branch :
          (o : Option (ManagedService F))
          → length (
              services_of
                (elim o [ none ↦ st | some ms ↦ stopped_at c.os i st (stop c.os ms st.world) ]))
            ≡ length st.services
      branch none = refl
      branch (some ms) = length-set_at st.services i (stop c.os ms st.world).0

  pub stop_existing-length :
      (st : State F W) (o : Option ℕ) → length (stop_existing c o st).services ≡ length st.services
  stop_existing-length st none = refl
  stop_existing-length st (some i) = stop_at-length i st

  pub stop_existing-halts :
      (st : State F W) (o : Option ℕ) (name : Bytes)
      → IsConsistent st
      → lookup st.managed name ≡ o
      → IsHalted (stop_existing c o st).services o
  stop_existing-halts st none name h e = tt
  stop_existing-halts st (some i) name h e =
      let (ms, f, g) = h.named name i e in stop_at-halts i st ms f (h.valid i ms f)

  pub stop_existing-managed :
      (st : State F W) (o : Option ℕ) → (stop_existing c o st).managed ≡ st.managed
  stop_existing-managed st none = refl
  stop_existing-managed st (some i) = stop_at-managed i st

  pub added_found :
      (st : State F W) (ms : ManagedService F)
      → deref (add_service ms st).services (length st.services) ≡ some ms
  unfolding add_service
  added_found st ms = ground (arith, deref-append st.services ms (length st.services))

  abbrev pub start_added : State F W → ManagedService F → State F W × Option StartError
  start_added st ms = start_at c.os (length st.services) (add_service ms st)

  abbrev after : State F W → ManagedService F → State F W × Option StartError
  after st ms = started_at c.os (length st.services) (add_service ms st) (start c.os ms st.world)

  start_added-after : (st : State F W) (ms : ManagedService F) → start_added st ms ≡ after st ms
  unfolding add_service
  start_added-after st ms =
      start_at_found (length st.services) (add_service ms st) ms (added_found st ms)

  -- A service that has just been added runs if its start gives no error.
  pub start_added-Runs :
      (st : State F W) (ms : ManagedService F)
      → (start_added st ms).1 ≡ none
      → Runs (start_added st ms).0.services (length st.services) ms.spec
  unfolding add_service
  start_added-Runs st ms h =
      let same = start_added-after st ms in
      let (e, f) = start-running c.os ms st.world (ap (λ t. t.1) (sym same) ∙ h) in
      subst (λ t. Runs t.0.services (length st.services) ms.spec) (sym same)
        (
          (start c.os ms st.world).0,
          ground (
            arith,
            deref-set_at (st.services ++ ms ∷ []) (length st.services) (length st.services)
                (start c.os ms st.world).0 ms (added_found st ms),
          ),
          e,
          f,
        )

  -- An older service is not touched by that.
  pub start_added-IsHalted :
      (st : State F W) (ms : ManagedService F) (o : Option ℕ)
      → IsHalted st.services o
      → IsHalted (start_added st ms).0.services o
  unfolding add_service
  start_added-IsHalted st ms none h = tt
  start_added-IsHalted st ms (some i) (old, e, f) =
      subst (λ t. IsHalted t.0.services (some i)) (sym (start_added-after st ms))
        (
          old,
          ground (
            arith,
            deref-lt st.services i old e,
            deref-append st.services ms i,
            deref-set_at (st.services ++ ms ∷ []) (length st.services) i (start c.os ms st.world).0
                ms (added_found st ms),
          ),
          f,
        )

  pub start_at-managed :
      (i : ℕ) (st : State F W) (ms : ManagedService F)
      → deref st.services i ≡ some ms
      → (start_at c.os i st).0.managed ≡ st.managed
  start_at-managed i st ms h = ap (λ t. ap_managed t.0) (start_at_found i st ms h)
