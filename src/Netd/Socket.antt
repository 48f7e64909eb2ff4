-- ===== src/Netd/Socket.antt =====
-- internal/netd/netd.go: a netlink socket, from its opening to the acknowledgement. The calls of
-- the kernel are a record on a world `W`, with its file descriptors `D`.
use a_from_scratch_linux_use.Base.{
  ltb, ◌%◌, [], ◌-◌, not, ◌==◌, if◌then◌else◌, ◌^◌, false, some, ◌∷◌, ◌*◌, true, none, ◌+◌, ℕ, Bool,
  Option, List, Bytes,
}
use a_from_scratch_linux_use.Base.Io.{Io, Result, ok, err, asks, call, ◌>>=◌, ◌>>◌}
use a_from_scratch_linux_use.Netd.Message.{Netlink}

pub record NetlinkMessage : Type 0 where
  pub kind : ℕ
  pub seq : ℕ
  pub payload : Bytes

-- What a socket delivers until its deadline: the bytes of one read after the other.
pub data Incoming : Type 0 where
  timed_out : Incoming
  receive_failed : Incoming
  received : Bytes → Incoming → Incoming

-- `wrap` is os.NewFile, which may give nil; `deadline` is SetReadDeadline with SyscallConn.
-- `parse_messages` is syscall.ParseNetlinkMessage.
pub record NetCalls (W D : Type 0) : Type 0 where
  pub unix : Netlink
  pub interface_by_name : Bytes → W → Option ℕ
  pub parse_ip4 : Bytes → Option Bytes
  pub socket : W → W × Option D
  pub bind : D → W → W × Bool
  pub wrap : D → W → W × Bool
  pub close : D → W → W
  pub send_to : D → Bytes → W → W × Bool
  pub deadline : D → W → W × Bool
  pub incoming : D → W → W × Incoming
  pub parse_messages : Bytes → Option (List NetlinkMessage)
  pub read_file : Bytes → W → Option Bytes
  pub make_all : Bytes → W → W × Bool
  pub write_file : Bytes → Bytes → W → W × Bool

pub data NetError : Type 0 where
  no_interface bad_address : Bytes → NetError
  socket_failed bind_failed wrap_failed send_failed : NetError
  no_deadline no_answer receive_broken unparsed : NetError
  netlink_error : ℕ → NetError
  not_up : Bytes → Bytes → NetError
  no_resolv_directory no_resolv_file : NetError

-- binary.LittleEndian.Uint32
unfoldable pub uint32_le : ℕ → ℕ → ℕ → ℕ → ℕ
uint32_le a b c d = a + b * 2 ^ 8 + c * 2 ^ 16 + d * 2 ^ 24

-- unix.Errno(-errno) of an int32 with these bits: a negative number is extended to 64 bits.
unfoldable pub negated : ℕ → ℕ
negated n = let m = (2 ^ 32 - n) % 2 ^ 32 in if ltb m (2 ^ 31) then m else m + (2 ^ 64 - 2 ^ 32)

-- The error of an NLMSG_ERROR: none where it is too short, or an acknowledgement.
unfoldable pub errno_of : Bytes → Option ℕ
errno_of (a ∷ b ∷ c ∷ d ∷ rest) =
    let n = uint32_le a b c d in if n == 0 then none else some (negated n)
errno_of short = none

-- What the messages of one read say: none where the answer is not among them.
unfoldable pub find_ack : Netlink → ℕ → List NetlinkMessage → Option (Result NetError (Unit {0}))
find_ack u expected [] = none
find_ack u expected (m ∷ ms) =
    let further = find_ack u expected ms in
    if not (m.seq == expected)
    then further
    else if m.kind == u.nlmsg_error
    then some (elim (errno_of m.payload) [ none ↦ ok tt | some n ↦ err (netlink_error n) ])
    else further

module _ {W D : Type 0} (k : NetCalls W D) where
  -- openNetlinkSocketNonBlock
  unfoldable pub open_netlink_socket : Io W NetError D
  open_netlink_socket = asks k.socket socket_failed >>= bound
    where
      give_up : D → NetError → Io W NetError D
      give_up d e w = (k.close d w, err e)

      wrapping : D → W × Bool → W × Result NetError D
      wrapping d (w, true) = (w, ok d)
      wrapping d (w, false) = give_up d wrap_failed w

      binding : D → W × Bool → W × Result NetError D
      binding d (w, true) = wrapping d (k.wrap d w)
      binding d (w, false) = give_up d bind_failed w

      bound : D → Io W NetError D
      bound d w = binding d (k.bind d w)

  -- The loop of readNetlinkAckPersistent.
  unfoldable pub await_ack : ℕ → Incoming → Result NetError (Unit {0})
  await_ack expected timed_out = err no_answer
  await_ack expected receive_failed = err receive_broken
  await_ack expected (received bytes rest) = elim (k.parse_messages bytes) [
    | none ↦ err unparsed
    | some ms ↦ elim (find_ack k.unix expected ms) [ none ↦ await_ack expected rest | some r ↦ r ]
  ]

  -- readNetlinkAckPersistent
  unfoldable pub read_netlink_ack : D → ℕ → Io W NetError (Unit {0})
  read_netlink_ack d expected = call (k.deadline d) no_deadline >>= λ u w.
      let r = k.incoming d w in (r.0, await_ack expected r.1)

  -- `defer file.Close()`
  abbrev pub closing : D → Io W NetError (Unit {0}) → Io W NetError (Unit {0})
  closing d m w = let r = m w in (k.close d r.0, r.1)

  -- What is done with a socket of its own.
  unfoldable pub with_socket : (D → Io W NetError (Unit {0})) → Io W NetError (Unit {0})
  with_socket f = open_netlink_socket >>= λ d. closing d (f d)

  -- A request, and its answer.
  unfoldable pub request : Bytes → ℕ → D → Io W NetError (Unit {0})
  request message seq d = do call (k.send_to d message) send_failed; read_netlink_ack d seq
