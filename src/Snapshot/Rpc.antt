-- ===== src/Snapshot/Rpc.antt =====
-- sendVSockRPC of internal/snapshot/orchestrator.go, over the frames of internal/vsockd. JSON and
-- the connection are parameters.
use a_from_scratch_linux_use.Base.{
  Bool, true, false, Option, none, some, [], Bytes, is_nil, if◌then◌else◌,
}
use a_from_scratch_linux_use.Vsock.Frame.{Read, ok, err, FrameError, read_frame, write_frame}
use a_from_scratch_linux_use.Vsock.Protocol.{Request, Response}

-- A connection to the guest, EncodeJSON and DecodeJSON, and the id made from the clock.
pub record Wire (F X W : Type 0) : Type 0 where
  pub dial : Bytes → W → W × Bool
  pub close : W → W
  pub write : W → Bytes → W × Bool
  pub received : W → Bytes
  pub encode : Request → Option Bytes
  pub decode : Bytes → Option (Response F X)
  pub snap_id : W → Bytes

pub data RpcError : Type 0 where
  not_dialed not_encoded not_written not_read not_decoded refused : RpcError

module _ {F X W : Type 0} (wire : Wire F X W) where
  abbrev request : Bytes → Bytes → Request
  request i command = record { id = i; command = command; service = []; args = []; payload = [] }

  judged : Option (Response F X) → Option RpcError
  judged none = some not_decoded
  judged (some resp) = if resp.success then none else some refused

  answered : Read → Option RpcError
  unfolding judged
  answered (err e) = some not_read
  answered (ok payload rest) = judged (wire.decode payload)

  exchanged : W × Option FrameError → W × Option RpcError
  unfolding answered
  exchanged (w, some e) = (wire.close w, some not_written)
  exchanged (w, none) = (wire.close w, answered (read_frame (wire.received w)))

  encoded : W → Option Bytes → W × Option RpcError
  unfolding exchanged
  encoded w none = (wire.close w, some not_encoded)
  encoded w (some bytes) = exchanged (write_frame wire.write w bytes)

  dialed : Bytes → W × Bool → W × Option RpcError
  unfolding encoded
  dialed command (w, false) = (w, some not_dialed)
  dialed command (w, true) = encoded w (wire.encode (request (wire.snap_id w) command))

  -- sendVSockRPC
  unfoldable pub send_vsock_rpc : Bytes → Bytes → W → W × Option RpcError
  unfolding dialed
  send_vsock_rpc target command w =
      if is_nil target then (w, none) else dialed command (wire.dial target w)
