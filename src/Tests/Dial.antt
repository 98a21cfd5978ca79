-- ===== src/Tests/Dial.antt =====
-- Dialing two addresses, one of them on the local host.
use herrscher_transport.Prelude.{ℕ, ◌≡◌, refl, String, Option, none, some, ◌==◌, if◌then◌else◌}
use herrscher_transport.Errors.{Error, Result, ok, err, external, plaintext_dial}
use herrscher_transport.Registry.{RemoteEntry}
use herrscher_transport.Backend.Proxy.{BackendProxy, close_backend_proxy}
use herrscher_transport.Dial.{Network, dial_backend}

abbrev split : String → Result ℕ (String × String)
split addr =
    if addr == "127.0.0.1:70"
    then ok ("127.0.0.1", "70")
    else if addr == "far:71"
    then ok ("far", "71")
    else err (external "missing port in address")

abbrev net : Network ℕ
net = record {
  Credentials = ℕ;
  Conn = String × ℕ;
  quote = λ s. s;
  split_host_port = split;
  is_loopback_ip = λ host. host == "127.0.0.1";
  insecure = 0;
  new_client = λ addr creds. ok (addr, creds);
  close_conn = λ conn. ok tt;
}

abbrev near : RemoteEntry ℕ
near = record { manifest = 7; grpc_addr = "127.0.0.1:70"; instance_id = "i" }

abbrev dialed : BackendProxy (String × ℕ)
dialed = record { cc = ("127.0.0.1:70", 0); dialed = some ("127.0.0.1:70", 0) }

abbrev no_error : Option (Error ℕ)
no_error = none

abbrev no_credentials : Option ℕ
no_credentials = none

abbrev far : RemoteEntry ℕ
far = record { manifest = 7; grpc_addr = "far:71"; instance_id = "i" }

near_dialed : dial_backend net no_error near no_credentials ≡ ok dialed
unfolding dial_backend
near_dialed = refl

far_refused : dial_backend net no_error far no_credentials ≡ err (plaintext_dial "far:71")
unfolding dial_backend
far_refused = refl

far_with_credentials :
    dial_backend net no_error far (some 3)
    ≡ ok (record { cc = ("far:71", 3); dialed = some ("far:71", 3) })
unfolding dial_backend
far_with_credentials = refl

closed : close_backend_proxy net.close_conn dialed ≡ ok tt
unfolding close_backend_proxy
closed = refl
