-- ===== src/Netd/Tests.antt =====
-- Concrete requests, and the set-up of "eth0" against a kernel that answers each request.
use a_from_scratch_linux_use.Base.Path.{dir}
use a_from_scratch_linux_use.Base.{
  trim_right, trim_left, trim_space, one_of, ◌-◌, true, ◌+◌, length, ◌≡◌, str_eq, ltb, ◌^◌, arith,
  str, if◌then◌else◌, ◌%◌, [], ◌++◌, some, ◌∷◌, ℕ, List, Bytes, refl,
}
use a_from_scratch_linux_use.Base.Io.{err, ok}
use a_from_scratch_linux_use.Netd.Message.{
  link_up_message, gateway_message, put_uint16, address_message, put_uint32_le, Netlink,
}
use a_from_scratch_linux_use.Netd.Socket.{
  negated, uint32_le, errno_of, find_ack, await_ack, read_netlink_ack, request, open_netlink_socket,
  with_socket, netlink_error, timed_out, received, NetlinkMessage, Incoming, NetCalls,
}
use a_from_scratch_linux_use.Netd.Configure.{
  nameserver_lines, nameserver_lines, resolv_conf, write_resolv_conf, uint8_of, checked_cidr,
  set_interface_ip, verify_interface_up, set_link_up, default_config, auto_configure,
  set_default_gateway,
}
use a_from_scratch_linux_use.Netd.Requests.{Documented, IsRequest, messages-IsRequest}

abbrev numbers : Netlink
numbers = record {
  sizeof_nl_msghdr = 16;
  sizeof_if_infomsg = 16;
  sizeof_if_addrmsg = 8;
  sizeof_rt_msg = 12;
  sizeof_rt_attr = 4;
  rtm_newlink = 16;
  rtm_newaddr = 20;
  rtm_newroute = 24;
  nlm_f_request = 1;
  nlm_f_ack = 4;
  nlm_f_create = 1024;
  nlm_f_replace = 256;
  nlmsg_error = 2;
  ifa_local = 2;
  ifa_address = 1;
  rta_gateway = 5;
  rta_oif = 4;
  header_bytes = λ l t f s.
      put_uint32_le l ++ (put_uint16 t ++ (put_uint16 f ++ (put_uint32_le s ++ put_uint32_le 0)));
  link_up_bytes = λ i. 0 ∷ 0 ∷ 0 ∷ 0 ∷ (put_uint32_le i ++ (put_uint32_le 1 ++ put_uint32_le 1));
  address_bytes = λ p i. 2 ∷ p % 256 ∷ 0 ∷ 0 ∷ put_uint32_le i;
  default_route_bytes = 2 ∷ 0 ∷ 0 ∷ 0 ∷ 254 ∷ 3 ∷ 0 ∷ 1 ∷ put_uint32_le 0;
}

numbers-Documented : Documented numbers
unfolding put_uint32_le put_uint16
numbers-Documented = (
  refl,
  λ l t f s. refl,
  λ p i. refl,
  refl,
  omega arith,
  omega arith,
  omega arith,
  omega arith,
  omega arith,
)

abbrev guest : Bytes
guest = 10 ∷ 0 ∷ 2 ∷ 15 ∷ []

abbrev router : Bytes
router = 10 ∷ 0 ∷ 2 ∷ 2 ∷ []

messages-IsRequest_example :
    IsRequest numbers
      (address_message numbers 2 guest 24)
      20
      2
      (numbers.address_bytes 24 (2 % 2 ^ 32))
      ((2, guest) ∷ (1, guest) ∷ [])
    × IsRequest numbers
        (gateway_message numbers 2 router)
        24
        3
        numbers.default_route_bytes
        ((5, router) ∷ (4, put_uint32_le (2 % 2 ^ 32)) ∷ [])
messages-IsRequest_example =
    messages-IsRequest numbers numbers-Documented 2 24 guest router refl refl

-- The sockets that are open, and the requests so far, the last one first.
abbrev Guest : Type 0
Guest = ℕ × List Bytes

-- The kernel acknowledges every request behind a message for another one, but refuses the route
-- with the errno 17.
abbrev answer : List Bytes → Incoming
answer sent =
    received (str "other")
      (received (if ltb (length sent) 3 then str "ack" else str "refused") timed_out)

abbrev message_of : ℕ → Bytes → NetlinkMessage
message_of seq bytes = record { kind = 2; seq = seq; payload = bytes }

abbrev parsed_messages : Bytes → List NetlinkMessage
parsed_messages bytes =
    if str_eq bytes (str "other")
    then message_of 9 [] ∷ []
    else if str_eq bytes (str "ack")
    then message_of 1 (put_uint32_le 0) ∷ message_of 2 (put_uint32_le 0) ∷ []
    else message_of 3 (put_uint32_le 4294967279) ∷ []

abbrev calls : NetCalls Guest (Unit {0})
calls = record {
  unix = numbers;
  interface_by_name = λ n w. some 2;
  parse_ip4 = λ t. some (if str_eq t (str "10.0.2.15") then guest else router);
  socket = λ w. ((w.0 + 1, w.1), some tt);
  bind = λ d w. (w, true);
  wrap = λ d w. (w, true);
  close = λ d w. (w.0 - 1, w.1);
  send_to = λ d m w. ((w.0, m ∷ w.1), true);
  deadline = λ d w. (w, true);
  incoming = λ d w. (w, answer w.1);
  parse_messages = λ b. some (parsed_messages b);
  read_file = λ p w. some (str "up" ++ (10 ∷ []));
  make_all = λ p w. (w, true);
  write_file = λ p b w. ((w.0, b ∷ w.1), true);
}

-- A route that is refused is only printed; the error of the request is the errno.
gateway_refused :
    (set_default_gateway calls (str "10.0.2.2") (str "eth0") (0, str "b" ∷ str "a" ∷ [])).1
    ≡ err (netlink_error 17)
unfolding set_default_gateway with_socket open_netlink_socket request read_netlink_ack await_ack
    find_ack str_eq errno_of put_uint32_le uint32_le negated
gateway_refused = refl

configured : auto_configure calls (default_config []) (0, []) ≡ (
  (
    0,
    (str "# Generated by karim-netd"
          ++ (10 ∷ (str "nameserver 10.0.2.3" ++ (10 ∷ (str "nameserver 1.1.1.1" ++ (10 ∷ []))))))
        ∷ gateway_message numbers 2 router
        ∷ address_message numbers 2 guest 24
        ∷ link_up_message numbers 2
        ∷ [],
  ),
  ok tt,
)
unfolding auto_configure set_link_up with_socket open_netlink_socket request read_netlink_ack
    await_ack find_ack str_eq errno_of put_uint32_le uint32_le verify_interface_up one_of trim_space
    trim_left trim_right default_config set_interface_ip checked_cidr uint8_of set_default_gateway
    write_resolv_conf resolv_conf nameserver_lines address_message gateway_message negated dir
configured = refl
