-- ===== src/Snapshot/Machine.antt =====
-- A machine for internal/snapshot/orchestrator.go: a guest and a hypervisor of which any call may
-- fail.
use a_from_scratch_linux_use.Base.{
  ℕ, suc, ◌-◌, Bool, true, false, not, ◌&&◌, Option, none, some, List, [], ◌∷◌, Bytes, str, str_eq,
  if◌then◌else◌,
}
use a_from_scratch_linux_use.Snapshot.{Host}

-- A saved state: its tag, and whether the guest was frozen and its processors paused.
pub record Image : Type 0 where
  pub tag : Bytes
  pub frozen : Bool
  pub paused : Bool

-- Which calls work on a machine: those of the guest, while it runs, and those of QMP.
pub record Works : Type 0 where
  pub quiesces : Bool
  pub thaws : Bool
  pub dials : Bool
  pub pauses : Bool
  pub resumes : Bool
  pub saves : Bool

-- A machine: which calls work, whether its guest is frozen and its processors are paused, how many
-- connections to QMP are open, and its images.
pub record Vm : Type 0 where
  pub works : Works
  pub frozen : Bool
  pub paused : Bool
  pub clients : ℕ
  pub images : List Image

-- A guest that is paused answers to nothing.
abbrev pub send_to : Bytes → Bytes → Vm → Vm × Bool
send_to target command vm =
    if not vm.paused
      && (if str_eq command (str "quiesce") then vm.works.quiesces else vm.works.thaws)
    then (record vm { frozen = str_eq command (str "quiesce") }, true)
    else (vm, false)

abbrev pub dial_qmp : Bytes → Vm → Vm × Bool
dial_qmp path vm =
    if vm.works.dials then (record vm { clients = suc vm.clients }, true) else (vm, false)

abbrev pub save_image : Bytes → Vm → Vm × Option Bytes
save_image tag vm =
    if vm.works.saves
    then (
      record vm {
        images = record { tag = tag; frozen = vm.frozen; paused = vm.paused } ∷ vm.images;
      },
      some [],
    )
    else (vm, none)

abbrev pub pause_cpus : Vm → Vm
pause_cpus vm = if vm.works.pauses then record vm { paused = true } else vm

abbrev pub resume_cpus : Vm → Vm
resume_cpus vm = if vm.works.resumes then record vm { paused = false } else vm

-- The host of a machine; loading, deleting and queries always fail on it.
abbrev pub vm_host : Host Bytes Vm
vm_host = record {
  send = send_to;
  dial = dial_qmp;
  close = λ vm. record vm { clients = vm.clients - 1 };
  pause = pause_cpus;
  resume = resume_cpus;
  save_vm = save_image;
  load_vm = λ tag vm. (vm, none);
  del_vm = λ tag vm. (vm, none);
  list_snapshots = λ vm. (vm, none);
  query_status = λ vm. (vm, none);
}

abbrev pub state : Works → Bool → Bool → ℕ → List Image → Vm
state works frozen paused clients images = record {
  works = works;
  frozen = frozen;
  paused = paused;
  clients = clients;
  images = images;
}

-- A machine that runs, with no client.
abbrev pub machine : Works → List Image → Vm
machine works images = state works false false 0 images
