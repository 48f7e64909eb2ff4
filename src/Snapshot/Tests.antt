-- ===== src/Snapshot/Tests.antt =====
-- The theorem about SaveSnapshot at a concrete machine, which cannot be resumed.
use a_from_scratch_linux_use.Base.{true, false, str}
use a_from_scratch_linux_use.Snapshot.{SnapshotConfig}
use a_from_scratch_linux_use.Snapshot.Machine.{Works}

abbrev config : SnapshotConfig
config = record {
  qmp_socket_path = str "/tmp/qmp.sock";
  vsock_target = str "vsock://3:1024";
  pause_vm = true;
}

abbrev works : Works
works = record {
  quiesces = true;
  thaws = true;
  dials = true;
  pauses = true;
  resumes = false;
  saves = true;
}
