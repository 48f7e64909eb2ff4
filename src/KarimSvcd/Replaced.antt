-- ===== src/KarimSvcd/Replaced.antt =====
-- A service that is loaded into the running supervisor of cmd/karim-svcd/main.go.
use a_from_scratch_linux_use.KarimSvcd.Starts.{
  stop_existing-length, stop_existing-halts, stop_existing-managed, start_added-IsHalted,
  added_found, IsHalted, ap_managed, start_added-Runs, start_at-managed, Runs,
}
use a_from_scratch_linux_use.Base.Maps.{lookup-store, store, lookup}
use a_from_scratch_linux_use.Svcd.Config.Lines.{parsed}
use a_from_scratch_linux_use.Svcd.Config.Reader.{parse_service_spec_from_bytes}
use a_from_scratch_linux_use.KarimSvcd.Store.Maps.{some-injective}
use a_from_scratch_linux_use.KarimSvcd.Consistent.{world-IsConsistent, IsConsistent}
use a_from_scratch_linux_use.KarimSvcd.Store.{find_service, add_service, State}
use a_from_scratch_linux_use.Svcd.Supervisor.{new_managed_service, StartError}
use a_from_scratch_linux_use.KarimSvcd.Bridge.{
  load_parsed, load_started, load_service, persist, replace_service, stop_existing, Calls,
}
use a_from_scratch_linux_use.Svcd.Spec.{ServiceSpec}
use a_from_scratch_linux_use.Base.{
  str_eq, if◌then◌else◌, str_eq_refl, ◌∙◌, ap, sym, arith, subst, refl, none, length, Bytes, some,
  ◌≡◌, Option, ℕ,
}

module _ {F : Type 0} where
  -- What is left when a service with this specification, which stands behind all that were there,
  -- has taken the place of another.
  abbrev pub Replaces : {W : Type 0} → ServiceSpec F → ℕ → State F W → State F W → Type 0
  Replaces spec i st st' =
      (lookup st'.managed spec.name ≡ some i)
      × (i ≡ length st.services)
      × Runs st'.services i spec
      × IsHalted st'.services (lookup st.managed spec.name)

module _ {F W H : Type 0} (c : Calls F W H) where
  replace_service-managed :
      (spec : ServiceSpec F) (st : State F W)
      → (replace_service c spec st).0.0.managed
        ≡ store st.managed spec.name (replace_service c spec st).1
  unfolding replace_service new_managed_service add_service
  replace_service-managed spec st =
      let r = c.new_cgroup_manager st.world in
      let old = find_service st spec.name in
      let halted = stop_existing c old (record st { world = r.0 }) in
      let ms = new_managed_service spec r.1 in
      start_at-managed c (length halted.services) (add_service ms halted) ms
        (added_found c halted ms)
      ∙ ap (λ m. store m spec.name (length halted.services))
          (stop_existing-managed c (record st { world = r.0 }) old)

  -- Everything but the error: what replaceService does to the map and to the two services.
  replace_service-Replaces :
      (spec : ServiceSpec F) (st : State F W)
      → IsConsistent st
      → (replace_service c spec st).0.1 ≡ none
      → Replaces spec (replace_service c spec st).1 st (replace_service c spec st).0.0
  unfolding replace_service new_managed_service add_service
  replace_service-Replaces spec st h e =
      let r = c.new_cgroup_manager st.world in
      let fresh = record st { world = r.0 } in
      let old = find_service st spec.name in
      let halted = stop_existing c old fresh in
      let ms = new_managed_service spec r.1 in
      (
        ap (λ m. lookup m spec.name) (replace_service-managed spec st)
            ∙ ground (
              arith,
              lookup-store st.managed spec.name spec.name (length halted.services),
              str_eq_refl spec.name,
            ),
        stop_existing-length c fresh old,
        start_added-Runs c halted ms e,
        start_added-IsHalted c halted ms old
            (stop_existing-halts c fresh old spec.name (world-IsConsistent st r.0 h) refl),
      )

  load_started-Replaces :
      (config : Bytes) (spec : ServiceSpec F) (i : ℕ) (st : State F W)
      (r : State F W × Option StartError)
      → r.1 ≡ none
      → Replaces spec i st r.0
      → Replaces spec i st (load_started c config spec r).0
  unfolding persist
  load_started-Replaces config spec i st (st', none) e h = h
  load_started-Replaces config spec i st (st', some x) e h = cc

  load_started-managed :
      (config : Bytes) (spec : ServiceSpec F) (r : State F W × Option StartError)
      → (load_started c config spec r).0.managed ≡ r.0.managed
  unfolding persist
  load_started-managed config spec (st', none) = refl
  load_started-managed config spec (st', some x) = refl

  load_started-none :
      (config : Bytes) (spec : ServiceSpec F) (r : State F W × Option StartError)
      → (load_started c config spec r).1 ≡ none
      → r.1 ≡ none
  load_started-none config spec (st', none) h = refl
  load_started-none config spec (st', some x) h = cc

  -- LoadService that succeeds: the specification of the payload runs under its name, as a service
  -- that was not there before; the service that had the name before, if any, is not in the state
  -- running, though its process may still be ending; and every other name leads to where it did.
  pub load_service-Replaces :
      (config other : Bytes) (spec : ServiceSpec F) (st st' : State F W)
      → IsConsistent st
      → parse_service_spec_from_bytes c.floats config ≡ parsed spec
      → load_service c config st ≡ some (st', none)
      → (i : ℕ) × Replaces spec i st st'
        × (lookup st'.managed other
            ≡ (if str_eq spec.name other then some i else lookup st.managed other))
  unfolding load_service
  load_service-Replaces config other spec st st' h k e =
      let r = replace_service c spec st in
      let done = load_started c config spec r.0 in
      let same = some-injective done (st', none) (ap (load_parsed c config st) (sym k) ∙ e) in
      let started = load_started-none config spec r.0 (ap (λ t. t.1) same) in
      let replaced =
        load_started-Replaces config spec r.1 st r.0 started
          (replace_service-Replaces spec st h started) in
      (
        r.1,
        subst (λ t. Replaces spec r.1 st t.0) same replaced,
        ap (λ t. lookup (ap_managed t.0) other) (sym same)
            ∙ ap (λ m. lookup m other)
                (load_started-managed config spec r.0 ∙ replace_service-managed spec st)
            ∙ lookup-store st.managed spec.name other r.1,
      )
