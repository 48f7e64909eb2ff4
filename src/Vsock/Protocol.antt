-- ===== src/Vsock/Protocol.antt =====
-- The messages of internal/vsockd/protocol.go. The float64 of a CPU quota is a type `F`.
use a_from_scratch_linux_use.Base.{ℕ, Bool, true, false, List, [], Bytes}
use a_from_scratch_linux_use.Base.Int.{ℤ}

-- RPCRequest
pub record Request : Type 0 where
  pub id : Bytes
  pub command : Bytes
  pub service : Bytes
  pub args : List Bytes
  pub payload : Bytes

-- ServiceInfo
pub record ServiceInfo (F : Type 0) : Type 0 where
  pub name : Bytes
  pub state : Bytes
  pub pid : ℕ
  pub exec : Bytes
  pub memory_limit : ℤ
  pub cpu_quota : F
  pub restart : Bytes
  pub seccomp_profile : Bytes
  pub after : List Bytes

-- SystemMetrics: `X` holds what the Go runtime reports (uptime, goroutines, memory).
pub record Metrics (X : Type 0) : Type 0 where
  pub runtime : X
  pub num_services : ℕ

-- The Data field of a response. `X` is data that the server passes on as it is.
pub data Payload (F X : Type 0) : Type 0 where
  nothing : Payload F X
  text : Bytes → Payload F X
  services : List (ServiceInfo F) → Payload F X
  metrics : Metrics X → Payload F X
  foreign : X → Payload F X

-- RPCResponse
pub record Response (F X : Type 0) : Type 0 where
  pub id : Bytes
  pub success : Bool
  pub error : Bytes
  pub content : Payload F X

module _ {F X : Type 0} where
  -- RPCResponse{ID: id, Success: true, Data: d}
  abbrev pub reply : Bytes → Payload F X → Response F X
  reply i d = record { id = i; success = true; error = []; content = d }

  -- RPCResponse{ID: id, Success: false, Error: e}
  abbrev pub refuse : Bytes → Bytes → Response F X
  refuse i e = record { id = i; success = false; error = e; content = nothing }
