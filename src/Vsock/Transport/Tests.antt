-- ===== src/Vsock/Transport/Tests.antt =====
-- Addresses, and dialling against a kernel that writes down what is closed.
use a_from_scratch_linux_use.Svcd.Config.Values.{digits}
use a_from_scratch_linux_use.Base.{
  trim_prefix, trim_space, has_prefix, none, false, true, ◌≡◌, ◌∷◌, [], str, some, ℕ, List, Bytes,
  refl,
}
use a_from_scratch_linux_use.Base.Io.{ok, err}
use a_from_scratch_linux_use.Vsock.Transport.{
  dial_vsock, parse_uint32, split_colons, tcp_target, unix_target, bad_port, bad_vsock_address,
  no_target, over_net, not_restricted, not_listening, not_registered, parse_address,
  listen_unix_socket, listen_vsock, dial, Sockets,
}

abbrev calls : Sockets (List Bytes) ℕ ℕ ℕ
calls = record {
  cid_any = 4294967295;
  socket = λ w. (w, some 7);
  close_on_exec = λ d w. w;
  close = λ d w. str "close" ∷ w;
  bind = λ d a w. (w, true);
  listen = λ d w. (w, false);
  connect = λ d a w. (w, true);
  file_listener = λ d w. (w, none);
  file_conn = λ d w. (w, none);
  file_close = λ d w. str "close the file" ∷ w;
  accept = λ l w. (w, some 9);
  remove = λ p w. (w, true);
  listen_unix = λ p w. (w, some 1);
  chmod_600 = λ p w. (w, false);
  close_listener = λ l w. str "close the listener" ∷ w;
  dial_unix = λ p w. (p ∷ w, some 4);
  dial_tcp = λ p w. (p ∷ w, none);
}

-- A connection that cannot be registered: its descriptor is closed, and then closed again with the
-- file over it.
closed_twice :
    dial calls (str " vsock://3:1024") []
    ≡ (str "close the file" ∷ str "close" ∷ [], err not_registered)
unfolding dial parse_address has_prefix trim_space split_colons trim_prefix parse_uint32 digits
    dial_vsock
closed_twice = refl

listener_closed : listen_vsock calls 1024 [] ≡ (str "close" ∷ [], err not_listening)
unfolding listen_vsock
listener_closed = refl

unrestricted_closed :
    listen_unix_socket calls (str "/run/s") [] ≡ (str "close the listener" ∷ [], err not_restricted)
unfolding listen_unix_socket
unrestricted_closed = refl

unix_dialled : dial calls (str "./v.sock") [] ≡ (str "./v.sock" ∷ [], ok (over_net 4))
unfolding dial parse_address has_prefix trim_space
unix_dialled = refl

addresses :
    (parse_address (str "vsock://3") ≡ no_target (bad_vsock_address (str "vsock://3")))
    × (parse_address (str "vsock://3:4294967296")
        ≡ no_target (bad_port (str "vsock://3:4294967296")))
    × (parse_address (str "unix:///tmp/v") ≡ unix_target (str "/tmp/v"))
    × (parse_address (str "host:1") ≡ tcp_target (str "host:1"))
unfolding parse_address has_prefix trim_space split_colons trim_prefix parse_uint32 digits
addresses = (refl, refl, refl, refl)
