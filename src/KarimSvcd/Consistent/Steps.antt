-- ===== src/KarimSvcd/Consistent/Steps.antt =====
-- Everything that happens to the supervisor of cmd/karim-svcd/main.go, in any order.
use a_from_scratch_linux_use.Base.{[], ◌∷◌}
use a_from_scratch_linux_use.Svcd.Config.Reader.{parse_service_spec_from_bytes}
use a_from_scratch_linux_use.Base.Int.{ℤ}
use a_from_scratch_linux_use.KarimSvcd.Main.{
  service_of_pid, recorded_code, record_at, stop_all, reap, WaitStatus,
}
use a_from_scratch_linux_use.Svcd.Bundle.{parse_and_prepare_oci_bundle, BundleError}
use a_from_scratch_linux_use.Svcd.Config.Lines.{panicked, parsed, rejected, Outcome}
use a_from_scratch_linux_use.Svcd.Supervisor.Run.{exited}
use a_from_scratch_linux_use.Base.Io.{Result, ok, err}
use a_from_scratch_linux_use.Svcd.Spec.{ServiceSpec}
use a_from_scratch_linux_use.KarimSvcd.Consistent.{
  new_managed_service-IsValid, put_service-IsConsistent, set_at, add_service-IsConsistent, deref,
  add_service, ManagedService, world-IsConsistent, StartError, happen_at, ended, started,
  happen_at-IsConsistent, stop_at-happen, start_at-happen, IsValid, stop_at, start_at, IsConsistent,
}
use a_from_scratch_linux_use.Svcd.Supervisor.{record_exit_status, Wait, new_managed_service}
use a_from_scratch_linux_use.KarimSvcd.Store.{find_service, State}
use a_from_scratch_linux_use.KarimSvcd.Bridge.{
  prepared, applied, load_parsed, load_started, persist, stop_existing, stop_found, start_found,
  apply_bundle, load_service, unquiesce, quiesce, replace_service, stop_service, start_service,
  Calls,
}
use a_from_scratch_linux_use.Base.{
  refl, arith, length, none, List, some, ◌≡◌, sym, subst, Bytes, Option, ℕ,
}

module _ {F W H : Type 0} (c : Calls F W H) where
  -- One step: a request over the bridge, the end of a process as its monitor handles it, the
  -- start behind the backoff of a monitor, children for the reaper, and the shutdown. `exits` and
  -- `restarts` are of any service that was ever made.
  pub data Step (st : State F W) : State F W → Type 0 where
    starts : (name : Bytes) → Step st (start_service c name st).0
    stops : (name : Bytes) → Step st (stop_service c name st).0
    freezes : Step st (quiesce c st)
    thaws : Step st (unquiesce c st)
    loads :
        (config : Bytes) (st' : State F W) (e : Option Bytes)
        → load_service c config st ≡ some (st', e)
        → Step st st'
    applies : (json : Bytes) → Step st (apply_bundle c json st).0
    exits : (i : ℕ) (x : Wait) → Step st (happen_at c.os (exited x) i st)
    restarts : (i : ℕ) → Step st (start_at c.os i st).0
    reaps : (children : List (ℕ × WaitStatus)) → Step st (reap children st)
    shuts_down : Step st (stop_all c.os st.managed st)

  pub data Reaches (st : State F W) : State F W → Type 0 where
    here : Reaches st st
    then_step : (st1 st2 : State F W) → Reaches st st1 → Step st1 st2 → Reaches st st2

  recorded-spec : (code : ℤ) (ms : ManagedService F) → (record_exit_status code ms).spec ≡ ms.spec
  unfolding record_exit_status
  recorded-spec code ms = refl

  recorded-IsValid :
      (code : ℤ) (ms : ManagedService F) → IsValid ms → IsValid (record_exit_status code ms)
  unfolding record_exit_status
  recorded-IsValid code ms v = v

  start_at-IsConsistent :
      (i : ℕ) (st : State F W) → IsConsistent st → IsConsistent (start_at c.os i st).0
  start_at-IsConsistent i st h =
      subst IsConsistent (sym (start_at-happen c.os i st))
        (happen_at-IsConsistent c.os started i st h)

  stop_at-IsConsistent :
      (i : ℕ) (st : State F W) → IsConsistent st → IsConsistent (stop_at c.os i st)
  stop_at-IsConsistent i st h =
      subst IsConsistent (sym (stop_at-happen c.os i st)) (happen_at-IsConsistent c.os ended i st h)

  start_service-IsConsistent :
      (name : Bytes) (st : State F W) → IsConsistent st → IsConsistent (start_service c name st).0
  unfolding start_service
  start_service-IsConsistent name st h = branch (find_service st name)
    where
      branch : (o : Option ℕ) → IsConsistent (start_found c name st o).0
      branch none = h
      branch (some i) = start_at-IsConsistent i st h

  stop_service-IsConsistent :
      (name : Bytes) (st : State F W) → IsConsistent st → IsConsistent (stop_service c name st).0
  unfolding stop_service
  stop_service-IsConsistent name st h = branch (find_service st name)
    where
      branch : (o : Option ℕ) → IsConsistent (stop_found c name st o).0
      branch none = h
      branch (some i) = stop_at-IsConsistent i st h

  stop_existing-IsConsistent :
      (o : Option ℕ) (st : State F W) → IsConsistent st → IsConsistent (stop_existing c o st)
  stop_existing-IsConsistent none st h = h
  stop_existing-IsConsistent (some i) st h = stop_at-IsConsistent i st h

  replace_service-IsConsistent :
      (spec : ServiceSpec F) (st : State F W)
      → IsConsistent st
      → IsConsistent (replace_service c spec st).0.0
  unfolding replace_service
  replace_service-IsConsistent spec st h =
      let r = c.new_cgroup_manager st.world in
      let fresh = record st { world = r.0 } in
      let halted = stop_existing c (find_service st spec.name) fresh in
      let ms = new_managed_service spec r.1 in
      start_at-IsConsistent (length halted.services) (add_service ms halted) (
        add_service-IsConsistent halted ms
          (stop_existing-IsConsistent (find_service st spec.name) fresh
            (world-IsConsistent st r.0 h))
          (new_managed_service-IsValid spec r.1))

  load_started-IsConsistent :
      (config : Bytes) (spec : ServiceSpec F) (r : State F W × Option StartError)
      → IsConsistent r.0
      → IsConsistent (load_started c config spec r).0
  unfolding persist
  load_started-IsConsistent config spec (st, none) h =
      world-IsConsistent st (persist c spec.name config st).world h
  load_started-IsConsistent config spec (st, some e) h = h

  load_parsed-IsConsistent :
      (config : Bytes) (st st' : State F W) (o : Outcome (ServiceSpec F)) (e : Option Bytes)
      → IsConsistent st
      → load_parsed c config st o ≡ some (st', e)
      → IsConsistent st'
  load_parsed-IsConsistent config st st' panicked e h k = cc
  load_parsed-IsConsistent config st st' (rejected x) e h k = subst IsConsistent (ground arith) h
  load_parsed-IsConsistent config st st' (parsed spec) e h k = subst IsConsistent (ground arith) (
      load_started-IsConsistent config spec (replace_service c spec st).0
        (replace_service-IsConsistent spec st h))

  applied-IsConsistent :
      (spec : ServiceSpec F) (r : State F W × Option StartError)
      → IsConsistent r.0
      → IsConsistent (applied c spec r).0
  applied-IsConsistent spec (st, none) h = h
  applied-IsConsistent spec (st, some e) h = h

  prepared-IsConsistent :
      (st : State F W) (r : W × Result BundleError (ServiceSpec F))
      → IsConsistent st
      → IsConsistent (prepared c st r).0
  prepared-IsConsistent st (w, err e) h = world-IsConsistent st w h
  prepared-IsConsistent st (w, ok spec) h =
      applied-IsConsistent spec (replace_service c spec (record st { world = w })).0
        (replace_service-IsConsistent spec (record st { world = w }) (world-IsConsistent st w h))

  record_at-IsConsistent :
      (status : WaitStatus) (o : Option ℕ) (st : State F W)
      → IsConsistent st
      → IsConsistent (record_at status o st)
  record_at-IsConsistent status none st h = h
  record_at-IsConsistent status (some i) st h = branch (deref st.services i) refl
    where
      branch :
          (o : Option (ManagedService F))
          → deref st.services i ≡ o
          → IsConsistent {F = F} {W = W} (elim o [
            | none ↦ st
            | some ms ↦ record st {
              services = set_at st.services i (record_exit_status (recorded_code status) ms);
            }
          ])
      branch none k = h
      branch (some ms) k =
          put_service-IsConsistent st i ms (record_exit_status (recorded_code status) ms) st.world h
            k (recorded-spec (recorded_code status) ms)
            (recorded-IsValid (recorded_code status) ms (h.valid i ms k))

  reap-IsConsistent :
      (children : List (ℕ × WaitStatus)) (st : State F W)
      → IsConsistent st
      → IsConsistent (reap children st)
  unfolding reap
  reap-IsConsistent [] st h = h
  reap-IsConsistent ((pid, status) ∷ children) st h =
      let o = service_of_pid st.services st.managed pid in
      reap-IsConsistent children (record_at status o st) (record_at-IsConsistent status o st h)

  stop_all-IsConsistent :
      (managed : List (Bytes × ℕ)) (st : State F W)
      → IsConsistent st
      → IsConsistent (stop_all c.os managed st)
  unfolding stop_all
  stop_all-IsConsistent [] st h = h
  stop_all-IsConsistent ((name, i) ∷ managed) st h =
      stop_all-IsConsistent managed (stop_at c.os i st) (stop_at-IsConsistent i st h)

  Step-IsConsistent : (st st' : State F W) → Step st st' → IsConsistent st → IsConsistent st'
  unfolding quiesce unquiesce load_service apply_bundle
  Step-IsConsistent st st' (starts name) h = start_service-IsConsistent name st h
  Step-IsConsistent st st' (stops name) h = stop_service-IsConsistent name st h
  Step-IsConsistent st st' freezes h = world-IsConsistent st (quiesce c st).world h
  Step-IsConsistent st st' thaws h = world-IsConsistent st (unquiesce c st).world h
  Step-IsConsistent st st' (loads config t e k) h =
      load_parsed-IsConsistent config st t (parse_service_spec_from_bytes c.floats config) e h k
  Step-IsConsistent st st' (applies json) h =
      prepared-IsConsistent st
        (parse_and_prepare_oci_bundle c.bundles c.floats.zero_float json st.world) h
  Step-IsConsistent st st' (exits i x) h = happen_at-IsConsistent c.os (exited x) i st h
  Step-IsConsistent st st' (restarts i) h = start_at-IsConsistent i st h
  Step-IsConsistent st st' (reaps children) h = reap-IsConsistent children st h
  Step-IsConsistent st st' shuts_down h = stop_all-IsConsistent st.managed st h

  -- Whatever happens to a consistent supervisor, in whatever order: it stays consistent.
  pub Reaches-IsConsistent :
      (st st' : State F W) → IsConsistent st → Reaches st st' → IsConsistent st'
  Reaches-IsConsistent st st' h here = h
  Reaches-IsConsistent st st' h (then_step st1 st2 r s) =
      Step-IsConsistent st1 st2 s (Reaches-IsConsistent st st1 h r)
