-- ===== src/Tests/Responded.antt =====
-- A host finds the backend of Tests/Backend in its registry.
use herrscher_transport.Prelude.{
  ℕ, ◌≡◌, refl, Option, none, some, List, [], ◌∷◌, ◌==◌, String, inl, put,
}
use herrscher_transport.Errors.{Error, ok, eof}
use herrscher_transport.Errors.Format.{text}
use herrscher_transport.Codec.{encode_args}
use herrscher_transport.Announce.{open_announcement, decode_strict, mac, mac_message}
use herrscher_transport.Announce.Decimal.{append_int}
use herrscher_transport.Announce.Time.{sub_abs}
use herrscher_transport.Registry.{Directory, entry, observe, by_category, backends}
use herrscher_transport.Registry.Watching.{watch_message, watch_run}
use herrscher_transport.Registry.Vetted.{IsVetted, watching}
use herrscher_transport.Dial.{Network, dial_backend}
use herrscher_transport.Dial.Loopback.{IsDialed}
use herrscher_transport.Plugin.{ResultEnvelope}
use herrscher_transport.Backend.{err_string}
use herrscher_transport.Backend.Proxy
use herrscher_transport.Backend.Proxy.{BackendProxy, close_backend_proxy, receive_failure}
use herrscher_transport.Backend.Turns.{send_upto}
use herrscher_transport.Backend.Service.{
  Served, register_backend_skeleton, backend_respond_full_method,
}
use herrscher_transport.Session.Responded.{receives, registered_respond}
use herrscher_transport.Tests.Wire.{plain_wire, plain_wire_keeps}
use herrscher_transport.Tests.Backend.{
  types, enc, real, note, broken, grpc, runs_streams, array_of_6,
}
use herrscher_transport.Tests.Announce.{packages, secret, from}
use herrscher_transport.Tests.Registry as RegistryTest
use herrscher_transport.Tests.Registry.{gated, count, arrived}

abbrev directory : Directory ℕ ℕ
directory = record RegistryTest.directory { category = λ m. "backend" }

abbrev net : Network ℕ
net = record {
  Credentials = ℕ;
  Conn = String × ℕ;
  quote = λ s. s;
  split_host_port = directory.split_host_port;
  is_loopback_ip = λ host. host == "near";
  insecure = 0;
  new_client = λ addr creds. ok (addr, creds);
  close_conn = λ conn. ok tt;
}

abbrev no_error : Option (Error ℕ)
no_error = none

abbrev secure : Option ℕ
secure = some 5

abbrev proxy : BackendProxy (String × ℕ)
proxy = record { cc = ("near:1", 5); dialed = some ("near:1", 5) }

abbrev open_on : String × ℕ → String → Served ℕ (List ResultEnvelope) (List ℕ)
open_on conn method =
    grpc.open_stream
      (register_backend_skeleton (receives array_of_6) plain_wire types (send_upto 1 broken) grpc []
        real)
      method

backend_listed :
    backends directory (watching packages directory (some secret) count gated.allow arrived 0)
    ≡ entry (from 7) ∷ []
unfolding watch_run watch_message open_announcement decode_strict mac mac_message append_int sub_abs
    observe put by_category backends
backend_listed = refl

registered_respond_example :
    let served_call = open_on ("near:1", 5) backend_respond_full_method [] (2 ∷ []) in
    (served_call.1 ≡ 6 ∷ 2 ∷ [])
    × (Proxy.respond plain_wire types
          (some note)
          (ok tt)
          (λ env. ok tt)
          (ok tt)
          (record { frames = served_call.0.1; ending = eof })
          6
          []
        ≡ (("", some (receive_failure eof)), 5 ∷ []))
    × IsVetted packages directory (some secret) count gated.allow arrived (entry (from 7))
    × IsDialed net no_error (entry (from 7)) secure ("near:1", 5)
    × (close_backend_proxy net.close_conn proxy ≡ ok tt)
unfolding err_string text encode_args dial_backend
registered_respond_example =
    registered_respond packages directory net plain_wire plain_wire_keeps types enc grpc open_on
      real note 1 broken eof array_of_6 (some secret) count gated.allow arrived 0 (entry (from 7))
      (rw backend_listed (inl refl)) no_error secure proxy refl [] runs_streams
      (λ creds conn method h. refl) (λ env. ok tt) 6 (2 ∷ []) [] (6 ∷ [], refl, refl, refl) refl
      refl ((refl, (refl, tt)), refl) ((refl, (refl, tt)), refl)
