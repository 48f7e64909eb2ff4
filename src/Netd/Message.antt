-- ===== src/Netd/Message.antt =====
-- internal/netd/netd.go: the bytes of the netlink messages. The numbers of golang.org/x/sys/unix
-- and what binary.Write makes of its structs are parameters.
use Prim.Native.Nat.{bit_or}
use a_from_scratch_linux_use.Base.{
  ◌*◌, [], ◌/◌, ◌^◌, length, replicate, ◌∷◌, ◌++◌, ◌+◌, take, ◌%◌, ℕ, Bytes,
}

pub record Netlink : Type 0 where
  pub sizeof_nl_msghdr : ℕ
  pub sizeof_if_infomsg : ℕ
  pub sizeof_if_addrmsg : ℕ
  pub sizeof_rt_msg : ℕ
  pub sizeof_rt_attr : ℕ
  pub rtm_newlink : ℕ
  pub rtm_newaddr : ℕ
  pub rtm_newroute : ℕ
  pub nlm_f_request : ℕ
  pub nlm_f_ack : ℕ
  pub nlm_f_create : ℕ
  pub nlm_f_replace : ℕ
  pub nlmsg_error : ℕ
  pub ifa_local : ℕ
  pub ifa_address : ℕ
  pub rta_gateway : ℕ
  pub rta_oif : ℕ
  -- NlMsghdr by its length, type, flags and sequence number.
  pub header_bytes : ℕ → ℕ → ℕ → ℕ → Bytes
  -- IfInfomsg of AF_UNSPEC by its index, with IFF_UP as its flags and the change of them.
  pub link_up_bytes : ℕ → Bytes
  -- IfAddrmsg of AF_INET and RT_SCOPE_UNIVERSE by the length of its prefix and its index.
  pub address_bytes : ℕ → ℕ → Bytes
  -- RtMsg of the default route.
  pub default_route_bytes : Bytes

-- binary.LittleEndian.PutUint16
unfoldable pub put_uint16 : ℕ → Bytes
put_uint16 n = n % 256 ∷ n / 256 % 256 ∷ []

-- binary.LittleEndian.PutUint32
unfoldable pub put_uint32_le : ℕ → Bytes
put_uint32_le n = n % 256 ∷ n / 256 % 256 ∷ n / 2 ^ 16 % 256 ∷ n / 2 ^ 24 % 256 ∷ []

-- A buffer of n bytes, zero where nothing is written at its start.
abbrev pub zero_filled : ℕ → Bytes → Bytes
zero_filled n bytes = take n (bytes ++ replicate n 0)

module _ (u : Netlink) where
  -- encodeRtAttr; `& ^3` clears the last two bits.
  unfoldable pub encode_rt_attr : ℕ → Bytes → Bytes
  encode_rt_attr kind bytes =
      let len = u.sizeof_rt_attr + length bytes in
      zero_filled ((len + 3) / 4 * 4) (put_uint16 (len % 2 ^ 16) ++ (put_uint16 kind ++ bytes))

  abbrev pub ask_flags : ℕ
  ask_flags = bit_or u.nlm_f_request u.nlm_f_ack

  abbrev pub set_flags : ℕ
  set_flags = bit_or (bit_or ask_flags u.nlm_f_create) u.nlm_f_replace

  -- A message of which the header counts the bytes.
  abbrev pub sized_message : ℕ → ℕ → ℕ → ℕ → Bytes → Bytes → Bytes
  sized_message size kind flags seq body attrs =
      u.header_bytes ((u.sizeof_nl_msghdr + (size + length attrs)) % 2 ^ 32) kind flags seq
      ++ (body ++ attrs)

  -- The request of SetLinkUp.
  unfoldable pub link_up_message : ℕ → Bytes
  link_up_message index =
      u.header_bytes ((u.sizeof_nl_msghdr + u.sizeof_if_infomsg) % 2 ^ 32) u.rtm_newlink ask_flags 1
      ++ u.link_up_bytes (index % 2 ^ 32)

  -- The request of SetInterfaceIP.
  unfoldable pub address_message : ℕ → Bytes → ℕ → Bytes
  address_message index ip cidr =
      let attrs = encode_rt_attr u.ifa_local ip ++ encode_rt_attr u.ifa_address ip in
      sized_message u.sizeof_if_addrmsg u.rtm_newaddr set_flags 2
        (u.address_bytes cidr (index % 2 ^ 32)) attrs

  -- The request of SetDefaultGateway.
  unfoldable pub gateway_message : ℕ → Bytes → Bytes
  gateway_message index gateway =
      let attrs =
        encode_rt_attr u.rta_gateway gateway
        ++ encode_rt_attr u.rta_oif (put_uint32_le (index % 2 ^ 32)) in
      sized_message u.sizeof_rt_msg u.rtm_newroute set_flags 3 u.default_route_bytes attrs
