-- ===== src/Vsock/Transport.antt =====
-- internal/vsockd/transport.go: listening and dialling. The calls of the kernel and of package net
-- are a record on a world `W`; `D` is a file descriptor, `L` a listener and `C` a connection of
-- package net. The methods that only pass a call on to the connection are left out.
use a_from_scratch_linux_use.Svcd.Config.Values.{digits}
use a_from_scratch_linux_use.Base.{
  ◌||◌, trim_prefix, str, ◌^◌, has_prefix, ltb, ◌==◌, [], false, if◌then◌else◌, true, some,
  trim_space, none, ◌∷◌, ℕ, Bool, Option, List, Bytes,
}
use a_from_scratch_linux_use.Base.Io.{
  raise, pure, Io, Result, ok, err, asks, call, ignoring, modify, ◌>>=◌, ◌>>◌,
}
mod Tests

abbrev pub default_vsock_port : ℕ
default_vsock_port = 1024

abbrev pub default_guest_cid : ℕ
default_guest_cid = 3

abbrev pub default_host_cid : ℕ
default_host_cid = 2

pub record VsockAddr : Type 0 where
  pub cid : ℕ
  pub port : ℕ

pub record VsockConn (C : Type 0) : Type 0 where
  pub conn : C
  pub laddr : VsockAddr
  pub raddr : VsockAddr

pub record VsockListener (L : Type 0) : Type 0 where
  pub listener : L
  pub addr : VsockAddr

-- `cid_any` is unix.VMADDR_CID_ANY. `file_listener` and `file_conn` are net.FileListener and
-- net.FileConn on a file over the descriptor, which they duplicate; `file_close` closes that file.
pub record Sockets (W D L C : Type 0) : Type 0 where
  pub cid_any : ℕ
  pub socket : W → W × Option D
  pub close_on_exec : D → W → W
  pub close : D → W → W
  pub bind : D → VsockAddr → W → W × Bool
  pub listen : D → W → W × Bool
  pub connect : D → VsockAddr → W → W × Bool
  pub file_listener : D → W → W × Option L
  pub file_conn : D → W → W × Option C
  pub file_close : D → W → W
  pub accept : L → W → W × Option C
  pub remove : Bytes → W → W × Bool
  pub listen_unix : Bytes → W → W × Option L
  pub chmod_600 : Bytes → W → W × Bool
  pub close_listener : L → W → W
  pub dial_unix : Bytes → W → W × Option C
  pub dial_tcp : Bytes → W → W × Option C

pub data TransportError : Type 0 where
  no_socket not_bound not_listening not_connected not_registered : TransportError
  not_accepted unix_not_listening not_restricted dial_failed : TransportError
  bad_vsock_address bad_cid bad_port : Bytes → TransportError

-- What Dial gives: a vsock connection, or one of package net.
pub data Dialed (C : Type 0) : Type 0 where
  over_vsock : VsockConn C → Dialed C
  over_net : C → Dialed C

-- strings.Split(s, ":")
unfoldable pub split_colons : Bytes → List Bytes
split_colons [] = [] ∷ []
split_colons (c ∷ s) = elim (split_colons s) [
  | [] ↦ [] ∷ []
  | p ∷ ps ↦ if c == b':' then [] ∷ p ∷ ps else (c ∷ p) ∷ ps
]

-- strconv.ParseUint(s, 10, 32)
unfoldable pub parse_uint32 : Bytes → Option ℕ
parse_uint32 [] = none
parse_uint32 (c ∷ s) = elim (digits 0 (c ∷ s)) [
  | none ↦ none
  | some n ↦ if ltb n (2 ^ 32) then some n else none
]

-- What an address asks for: the two numbers of a vsock address come one after the other.
pub data Target : Type 0 where
  vsock_target : ℕ → ℕ → Target
  unix_target tcp_target : Bytes → Target
  no_target : TransportError → Target

abbrev port_target : Bytes → ℕ → Option ℕ → Target
port_target whole cid none = no_target (bad_port whole)
port_target whole cid (some port) = vsock_target cid port

abbrev cid_target : Bytes → Option ℕ → Bytes → Target
cid_target whole none port = no_target (bad_cid whole)
cid_target whole (some cid) port = port_target whole cid (parse_uint32 port)

abbrev vsock_parts : Bytes → List Bytes → Target
vsock_parts whole (cid ∷ port ∷ []) = cid_target whole (parse_uint32 cid) port
vsock_parts whole other = no_target (bad_vsock_address whole)

-- The parsing of Dial.
unfoldable pub parse_address : Bytes → Target
parse_address address =
    let addr = trim_space address in
    if has_prefix addr (str "vsock://")
    then vsock_parts addr (split_colons (trim_prefix addr (str "vsock://")))
    else if has_prefix addr (str "unix://")
    then unix_target (trim_prefix addr (str "unix://"))
    else if has_prefix addr (str "/") || has_prefix addr (str ".")
    then unix_target addr
    else if has_prefix addr (str "tcp://")
    then tcp_target (trim_prefix addr (str "tcp://"))
    else tcp_target addr

module _ {W D L C : Type 0} (k : Sockets W D L C) where
  abbrev fails : {A : Type 0} → TransportError → (W → W) → W → W × Result TransportError A
  fails e f w = (f w, err e)

  -- A call on a descriptor that is closed where the call fails.
  abbrev or_close : TransportError → D → (W → W × Bool) → Io W TransportError (Unit {0})
  or_close e d f w =
      let r = f w in elim r.1 [ true ↦ (r.0, ok tt) | false ↦ fails e (k.close d) r.0 ]

  -- The registration with the poller: the file is closed behind it, and the descriptor before that
  -- where the registration fails.
  abbrev or_close_both : {A : Type 0} → D → (W → W × Option A) → Io W TransportError A
  or_close_both d f w =
      let r = f w in
      elim r.1 [
        | some a ↦ (k.file_close d r.0, ok a)
        | none ↦ fails not_registered (λ v. k.file_close d (k.close d v)) r.0
      ]

  -- ListenVSock
  unfoldable pub listen_vsock : ℕ → Io W TransportError (VsockListener L)
  listen_vsock port = do
    d ← asks k.socket no_socket
    modify (k.close_on_exec d)
    let any : VsockAddr = record { cid = k.cid_any; port = port }
    or_close not_bound d (k.bind d any)
    or_close not_listening d (k.listen d)
    l ← or_close_both d (k.file_listener d)
    pure (record { listener = l; addr = any })

  -- DialVSock
  unfoldable pub dial_vsock : ℕ → ℕ → Io W TransportError (VsockConn C)
  dial_vsock cid port = do
    d ← asks k.socket no_socket
    modify (k.close_on_exec d)
    let remote : VsockAddr = record { cid = cid; port = port }
    or_close not_connected d (k.connect d remote)
    c ← or_close_both d (k.file_conn d)
    pure (record { conn = c; laddr = record { cid = k.cid_any; port = 0 }; raddr = remote })

  -- VSockListener.Accept
  unfoldable pub accept_vsock : VsockListener L → Io W TransportError (VsockConn C)
  accept_vsock l = do
    c ← asks (k.accept l.listener) not_accepted
    pure (record { conn = c; laddr = l.addr; raddr = record { cid = k.cid_any; port = 0 } })

  abbrev restricted : Bytes → L → Io W TransportError L
  restricted path l w =
      let r = k.chmod_600 path w in
      elim r.1 [ true ↦ (r.0, ok l) | false ↦ fails not_restricted (k.close_listener l) r.0 ]

  -- ListenUnix
  unfoldable pub listen_unix_socket : Bytes → Io W TransportError L
  listen_unix_socket path = do
    ignoring (k.remove path)
    l ← asks (k.listen_unix path) unix_not_listening
    restricted path l

  abbrev dial_target : Target → Io W TransportError (Dialed C)
  dial_target (vsock_target cid port) = dial_vsock cid port >>= λ c. pure (over_vsock c)
  dial_target (unix_target path) = asks (k.dial_unix path) dial_failed >>= λ c. pure (over_net c)
  dial_target (tcp_target addr) = asks (k.dial_tcp addr) dial_failed >>= λ c. pure (over_net c)
  dial_target (no_target e) = raise e

  -- Dial
  unfoldable pub dial : Bytes → Io W TransportError (Dialed C)
  dial address = dial_target (parse_address address)

  -- IsVSockSupported
  unfoldable pub is_vsock_supported : W → W × Bool
  is_vsock_supported w =
      let r = k.socket w in elim r.1 [ none ↦ (r.0, false) | some d ↦ (k.close d r.0, true) ]
