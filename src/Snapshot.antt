-- ===== src/Snapshot.antt =====
-- internal/snapshot/orchestrator.go. The QMP client and the guest are calls on a world `W`; the
-- times of a result are left out.
pub mod Machine
pub mod Rpc
pub mod Save
mod Tests
use a_from_scratch_linux_use.Base.{
  Bool, true, false, not, ◌&&◌, Option, none, some, Bytes, str, is_nil, if◌then◌else◌,
}

-- SnapshotConfig
pub record SnapshotConfig : Type 0 where
  pub qmp_socket_path : Bytes
  pub vsock_target : Bytes
  pub pause_vm : Bool

-- SnapshotResult, without its times.
pub record SnapshotResult : Type 0 where
  pub tag : Bytes
  pub quiesced : Bool
  pub output : Bytes

pub data SnapshotError : Type 0 where
  empty_tag not_connected savevm_failed loadvm_failed delvm_failed query_failed : SnapshotError

-- The calls of the orchestrator: sendVSockRPC, and the client of internal/qmp with its Dial and
-- Close. A result is none where the call fails. `X` is what QueryStatus and ListSnapshots give.
pub record Host (X W : Type 0) : Type 0 where
  pub send : Bytes → Bytes → W → W × Bool
  pub dial : Bytes → W → W × Bool
  pub close : W → W
  pub pause : W → W
  pub resume : W → W
  pub save_vm : Bytes → W → W × Option Bytes
  pub load_vm : Bytes → W → W × Option Bytes
  pub del_vm : Bytes → W → W × Option Bytes
  pub list_snapshots : W → W × Option X
  pub query_status : W → W × Option X

-- A value or an error.
pub data Answer (A : Type 0) : Type 0 where
  done : A → Answer A
  failed : SnapshotError → Answer A

-- NewOrchestrator
unfoldable pub new_orchestrator : SnapshotConfig → SnapshotConfig
new_orchestrator c =
    if is_nil c.qmp_socket_path then record c { qmp_socket_path = str "/tmp/qmp.sock" } else c

abbrev answer_of : {A W : Type 0} → SnapshotError → W × Option A → W × Answer A
answer_of e (w, none) = (w, failed e)
answer_of e (w, some a) = (w, done a)

module _ {X W : Type 0} (host : Host X W) (c : SnapshotConfig) where
  -- The first step of SaveSnapshot: whether the guest is quiesced.
  unfoldable pub quiesce_guest : W → W × Bool
  quiesce_guest w =
      if is_nil c.vsock_target then (w, false) else host.send c.vsock_target (str "quiesce") w

  -- The result is not looked at.
  unfoldable pub unquiesce_guest : W → W
  unquiesce_guest w = (host.send c.vsock_target (str "unquiesce") w).0

  save_answer : Bytes → Bool → Option Bytes → Answer SnapshotResult
  save_answer tag quiesced none = failed savevm_failed
  save_answer tag quiesced (some out) =
      done (record { tag = tag; quiesced = quiesced; output = out })

  -- From savevm on: resume, unquiesce, close, and only then the error of savevm.
  saved : Bytes → Bool → W × Option Bytes → W × Answer SnapshotResult
  unfolding save_answer unquiesce_guest
  saved tag quiesced (w, out) =
      let w1 = if c.pause_vm then host.resume w else w in
      let w2 = if quiesced then unquiesce_guest w1 else w1 in
      (host.close w2, save_answer tag quiesced out)

  connected : Bytes → Bool → W × Bool → W × Answer SnapshotResult
  unfolding saved
  connected tag quiesced (w, false) = (w, failed not_connected)
  connected tag quiesced (w, true) =
      saved tag quiesced (host.save_vm tag (if c.pause_vm then host.pause w else w))

  quiesced_or_not : Bytes → W × Bool → W × Answer SnapshotResult
  unfolding connected
  quiesced_or_not tag (w, quiesced) = connected tag quiesced (host.dial c.qmp_socket_path w)

  -- SaveSnapshot
  unfoldable pub save_snapshot : Bytes → W → W × Answer SnapshotResult
  unfolding quiesced_or_not quiesce_guest
  save_snapshot tag w =
      if is_nil tag then (w, failed empty_tag) else quiesced_or_not tag (quiesce_guest w)

  loaded : Bytes → W × Option Bytes → W × Answer SnapshotResult
  unfolding unquiesce_guest
  loaded tag (w, none) = (host.close w, failed loadvm_failed)
  loaded tag (w, some out) =
      let w1 = host.resume w in
      let w2 = if is_nil c.vsock_target then w1 else unquiesce_guest w1 in
      (host.close w2, done (record { tag = tag; quiesced = false; output = out }))

  restoring : Bytes → W × Bool → W × Answer SnapshotResult
  unfolding loaded
  restoring tag (w, false) = (w, failed not_connected)
  restoring tag (w, true) = loaded tag (host.load_vm tag w)

  -- RestoreSnapshot
  unfoldable pub restore_snapshot : Bytes → W → W × Answer SnapshotResult
  unfolding restoring
  restore_snapshot tag w =
      if is_nil tag then (w, failed empty_tag) else restoring tag (host.dial c.qmp_socket_path w)

  closing : {A : Type 0} → W × Answer A → W × Answer A
  closing (w, a) = (host.close w, a)

  asking : {A : Type 0} → SnapshotError → (W → W × Option A) → W × Bool → W × Answer A
  unfolding closing
  asking e f (w, false) = (w, failed not_connected)
  asking e f (w, true) = closing (answer_of e (f w))

  -- ListSnapshots
  unfoldable pub list_snapshots_of : W → W × Answer X
  unfolding asking
  list_snapshots_of w = asking query_failed host.list_snapshots (host.dial c.qmp_socket_path w)

  -- DeleteSnapshot; the output is not used.
  unfoldable pub delete_snapshot : Bytes → W → W × Answer Bytes
  unfolding asking
  delete_snapshot tag w =
      if is_nil tag
      then (w, failed empty_tag)
      else asking delvm_failed (host.del_vm tag) (host.dial c.qmp_socket_path w)

  -- QueryStatus
  unfoldable pub query_status_of : W → W × Answer X
  unfolding asking
  query_status_of w = asking query_failed host.query_status (host.dial c.qmp_socket_path w)
