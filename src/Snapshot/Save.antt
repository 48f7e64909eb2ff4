-- ===== src/Snapshot/Save.antt =====
-- SaveSnapshot of internal/snapshot/orchestrator.go on the machine of Machine: what is saved, and how
-- the guest and the hypervisor are left.
use a_from_scratch_linux_use.Snapshot.Machine.{machine, Vm, Image, Works}
use a_from_scratch_linux_use.Base.{Bool, true, false, not, ◌&&◌, List, [], ◌∷◌, Bytes, is_nil, ◌≡◌}
use a_from_scratch_linux_use.Snapshot.{
  SnapshotConfig, SnapshotResult, empty_tag, not_connected, savevm_failed, loadvm_failed,
  delvm_failed, query_failed, Answer, done, failed,
}

-- Whether SaveSnapshot quiesces the guest, and whether it pauses the processors for the image.
abbrev pub is_quiesced : SnapshotConfig → Works → Bool
is_quiesced c works = not (is_nil c.vsock_target) && works.quiesces

abbrev pub is_paused : SnapshotConfig → Works → Bool
is_paused c works = c.pause_vm && works.pauses

-- Whether the machine is left paused, and the guest frozen: where what was done cannot be undone.
-- A guest that is left paused cannot be thawed.
abbrev pub left_paused : SnapshotConfig → Works → Bool
left_paused c works = is_paused c works && not works.resumes

abbrev pub left_frozen : SnapshotConfig → Works → Bool
left_frozen c works = is_quiesced c works && not (works.thaws && not (left_paused c works))

-- How SaveSnapshot ends on `machine works images`.
abbrev pub Ending :
    SnapshotConfig → Bytes → Works → List Image → Vm × Answer SnapshotResult → Type 0
Ending c tag works images (vm, done r) =
    (works.dials ≡ true)
    × (works.saves ≡ true)
    × (r ≡ record { tag = tag; quiesced = is_quiesced c works; output = [] })
    × (vm
        ≡ record (machine works (
            record { tag = tag; frozen = is_quiesced c works; paused = is_paused c works }
            ∷ images)) { frozen = left_frozen c works; paused = left_paused c works })
Ending c tag works images (vm, failed savevm_failed) =
    (works.dials ≡ true)
    × (works.saves ≡ false)
    × (vm ≡ record (machine works images) {
      frozen = left_frozen c works;
      paused = left_paused c works;
    })
Ending c tag works images (vm, failed not_connected) =
    (works.dials ≡ false) × (vm ≡ record (machine works images) { frozen = is_quiesced c works })
Ending c tag works images (vm, failed empty_tag) = (tag ≡ []) × (vm ≡ machine works images)
Ending c tag works images (vm, failed loadvm_failed) = ⊥
Ending c tag works images (vm, failed delvm_failed) = ⊥
Ending c tag works images (vm, failed query_failed) = ⊥

module _ (c : SnapshotConfig) (tag : Bytes) (works : Works) where
  abbrev quiesced : Bool
  quiesced = is_quiesced c works
