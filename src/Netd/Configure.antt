-- ===== src/Netd/Configure.antt =====
-- internal/netd/netd.go: the set-up of an interface, of the default route and of the resolver.
use a_from_scratch_linux_use.Netd.Message.{gateway_message, address_message, link_up_message}
use a_from_scratch_linux_use.Base.{
  ltb, none, trim_space, one_of, ◌||◌, ◌-◌, some, not, ◌++◌, is_nil, ◌==◌, ◌^◌, [], ◌∷◌,
  if◌then◌else◌, ◌%◌, str, ℕ, Option, List, Bytes,
}
use a_from_scratch_linux_use.Base.Int.{ℤ, pos, negsuc}
use a_from_scratch_linux_use.Base.Path.{dir}
use a_from_scratch_linux_use.Base.Io.{Io, Result, ok, err, call, or_raise, when, ◌>>=◌, ◌>>◌}
use a_from_scratch_linux_use.Netd.Socket.{
  not_up, no_resolv_file, request, no_resolv_directory, bad_address, with_socket, no_interface,
  NetError, NetCalls,
}

pub record NetworkConfig : Type 0 where
  pub interface_name : Bytes
  pub ip_address : Bytes
  pub netmask_cidr : ℤ
  pub gateway_ip : Bytes
  pub dns_servers : List Bytes

abbrev or_eth0 : Bytes → Bytes
or_eth0 [] = str "eth0"
or_eth0 (c ∷ name) = c ∷ name

-- DefaultConfig
unfoldable pub default_config : Bytes → NetworkConfig
default_config name = record {
  interface_name = or_eth0 name;
  ip_address = str "10.0.2.15";
  netmask_cidr = pos 24;
  gateway_ip = str "10.0.2.2";
  dns_servers = str "10.0.2.3" ∷ str "1.1.1.1" ∷ [];
}

-- uint8(cidr)
unfoldable pub uint8_of : ℤ → ℕ
uint8_of (pos n) = n % 2 ^ 8
uint8_of (negsuc n) = 2 ^ 8 - 1 - n % 2 ^ 8

-- The prefix that AutoConfigure uses.
unfoldable pub checked_cidr : ℤ → ℤ
checked_cidr (negsuc n) = pos 24
checked_cidr (pos n) = if n == 0 || ltb 32 n then pos 24 else pos n

-- The states that VerifyInterfaceUp accepts.
abbrev up_states : List Bytes
up_states = str "up" ∷ str "unknown" ∷ str "lowerup" ∷ []

abbrev state_error : Bytes → Option Bytes → Option NetError
state_error name none = none
state_error name (some bytes) =
    if one_of (trim_space bytes) up_states then none else some (not_up name (trim_space bytes))

abbrev or_fails : Option NetError → Result NetError (Unit {0})
or_fails none = ok tt
or_fails (some e) = err e

-- The text of resolv.conf.
unfoldable pub nameserver_lines : List Bytes → Bytes
nameserver_lines [] = []
nameserver_lines (s ∷ ss) =
    (if is_nil (trim_space s) then [] else str "nameserver " ++ (trim_space s ++ (10 ∷ [])))
    ++ nameserver_lines ss

unfoldable pub resolv_conf : List Bytes → Bytes
resolv_conf servers = str "# Generated by karim-netd" ++ (10 ∷ nameserver_lines servers)

abbrev default_resolv_path : Bytes
default_resolv_path = str "/etc/resolv.conf"

abbrev or_resolv_path : Bytes → Bytes
or_resolv_path [] = default_resolv_path
or_resolv_path (c ∷ path) = c ∷ path

-- A step whose error is only printed.
abbrev pub warned : {W : Type 0} → Io W NetError (Unit {0}) → Io W NetError (Unit {0})
warned m w = ((m w).0, ok tt)

module _ {W D : Type 0} (k : NetCalls W D) where
  -- VerifyInterfaceUp
  unfoldable pub verify_interface_up : Bytes → Io W NetError (Unit {0})
  verify_interface_up name w =
      let path = str "/sys/class/net/" ++ (name ++ str "/operstate") in
      (w, or_fails (state_error name (k.read_file path w)))

  -- net.InterfaceByName
  abbrev pub interface_index : Bytes → Io W NetError ℕ
  interface_index name w = or_raise (k.interface_by_name name w) (no_interface name) w

  -- SetLinkUp
  unfoldable pub set_link_up : Bytes → Io W NetError (Unit {0})
  set_link_up name = do
    index ← interface_index name
    with_socket k (λ d. request k (link_up_message k.unix index) 1 d >> verify_interface_up name)

  -- SetInterfaceIP
  unfoldable pub set_interface_ip : Bytes → Bytes → ℤ → Io W NetError (Unit {0})
  set_interface_ip name text cidr = do
    index ← interface_index name
    ip ← or_raise (k.parse_ip4 text) (bad_address text)
    with_socket k (request k (address_message k.unix index ip (uint8_of cidr)) 2)

  -- SetDefaultGateway
  unfoldable pub set_default_gateway : Bytes → Bytes → Io W NetError (Unit {0})
  set_default_gateway text name = do
    index ← interface_index name
    gateway ← or_raise (k.parse_ip4 text) (bad_address text)
    with_socket k (request k (gateway_message k.unix index gateway) 3)

  -- WriteResolvConf
  unfoldable pub write_resolv_conf : List Bytes → Bytes → Io W NetError (Unit {0})
  write_resolv_conf servers given = do
    let path = or_resolv_path given
    call (k.make_all (dir path)) no_resolv_directory
    call (k.write_file path (resolv_conf servers)) no_resolv_file

  -- AutoConfigure
  unfoldable pub auto_configure : NetworkConfig → Io W NetError (Unit {0})
  auto_configure cfg = do
    let name = or_eth0 cfg.interface_name
    set_link_up name
    when (not (is_nil cfg.ip_address))
        (set_interface_ip name cfg.ip_address (checked_cidr cfg.netmask_cidr))
    when (not (is_nil cfg.gateway_ip)) (warned (set_default_gateway cfg.gateway_ip name))
    when (not (is_nil cfg.dns_servers))
        (warned (write_resolv_conf cfg.dns_servers default_resolv_path))
