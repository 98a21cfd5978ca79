-- ===== src/Tests/Registered.antt =====
-- A host finds the memory and the orchestrator of Tests/Session in its registry.
use herrscher_transport.Prelude.{
  ℕ, ◌≡◌, refl, pos, Option, none, some, List, [], ◌∷◌, ◌++◌, ◌==◌, if◌then◌else◌, String, nat_eq,
  inl, put,
}
use herrscher_transport.Errors.{Error, Result, ok, err, eof}
use herrscher_transport.Codec.{Bytes}
use herrscher_transport.Announce.{
  Announcement, Packages, open_announcement, decode_strict, mac, mac_message,
}
use herrscher_transport.Announce.Decimal.{append_int}
use herrscher_transport.Announce.Time.{sub_abs}
use herrscher_transport.Registry.{Directory, entry, observe, by_category, memories, orchestrators}
use herrscher_transport.Registry.Watching.{Message, watch_message, watch_run}
use herrscher_transport.Registry.Vetted.{IsVetted, watching}
use herrscher_transport.Dial.{Network, dial_memory, dial_orchestrator}
use herrscher_transport.Dial.Loopback.{IsDialed}
use herrscher_transport.Plugin.{PluginServer, empty_router, router_call}
use herrscher_transport.Memory.Proxy.{MemoryProxy, memory_proxy}
use herrscher_transport.Orchestrator.Proxy.{OrchestratorProxy, orchestrator_proxy}
use herrscher_transport.Session.{run_session}
use herrscher_transport.Session.Served.{relay_replies}
use herrscher_transport.Session.Registered.{registered_session}
use herrscher_transport.Tests.Wire.{plain, plain_wire_keeps}
use herrscher_transport.Tests.Memory as MemoryTest
use herrscher_transport.Tests.Orchestrator as OrchestratorTest
use herrscher_transport.Tests.Session.{both, second_registered, calls, calls_survive}
use herrscher_transport.Tests.Announce as AnnounceTest
use herrscher_transport.Tests.Registry.{gated, count}
use herrscher_transport.Tests.Registry as RegistryTest

-- The announcement of a memory is 7, of an orchestrator 8.
abbrev plugin_of : ℕ → Announcement ℕ
plugin_of n = record {
  manifest = n;
  grpc_addr = "near:1";
  instance_id = if nat_eq n 7 then "m" else "o";
}

abbrev read_plugin : Bytes → Result ℕ (Announcement ℕ × Bytes)
read_plugin [] = err eof
read_plugin (n ∷ rest) = ok (plugin_of n, rest)

abbrev plugins : Packages ℕ ℕ
plugins = record AnnounceTest.packages {
  announcement_decoder = record AnnounceTest.packages.announcement_decoder { decode = read_plugin };
}

abbrev directory : Directory ℕ ℕ
directory = record RegistryTest.directory {
  category = λ m. if nat_eq m 7 then "memory" else "orchestrator";
}

abbrev announced : List Message
announced =
    (AnnounceTest.sealed, pos 1000)
    ∷ (0 ∷ 43 ∷ 8 ∷ (AnnounceTest.secret ++ b'4' ∷ b'3' ∷ b'\n' ∷ 8 ∷ []), pos 1001)
    ∷ []

abbrev net : Network ℕ
net = record {
  Credentials = ℕ;
  Conn = String × ℕ;
  quote = λ s. s;
  split_host_port = directory.split_host_port;
  is_loopback_ip = λ host. host == "near";
  insecure = 0;
  new_client = λ addr creds. ok (addr, creds);
  close_conn = λ conn. ok tt;
}

abbrev plugin_client : String × ℕ → PluginServer ℕ (List ℕ)
plugin_client conn = router_call plain both

abbrev no_error : Option (Error ℕ)
no_error = none

abbrev in_the_clear : Option ℕ
in_the_clear = none

abbrev to_memory : MemoryProxy (PluginServer ℕ (List ℕ)) (String × ℕ)
to_memory = record { client = plugin_client ("near:1", 0); dialed = some ("near:1", 0) }

abbrev to_orchestrator : OrchestratorProxy (PluginServer ℕ (List ℕ)) (String × ℕ)
to_orchestrator = record { client = plugin_client ("near:1", 0); dialed = some ("near:1", 0) }

memory_listed :
    memories directory
      (watching plugins directory (some AnnounceTest.secret) count gated.allow announced 0)
    ≡ entry (plugin_of 7) ∷ []
unfolding watch_run watch_message open_announcement decode_strict mac mac_message append_int sub_abs
    observe put by_category memories
memory_listed = refl

orchestrator_listed :
    orchestrators directory
      (watching plugins directory (some AnnounceTest.secret) count gated.allow announced 0)
    ≡ entry (plugin_of 8) ∷ []
unfolding watch_run watch_message open_announcement decode_strict mac mac_message append_int sub_abs
    observe put by_category orchestrators
orchestrator_listed = refl

registered_session_example :
    (run_session MemoryTest.types OrchestratorTest.types
        (memory_proxy plain MemoryTest.types (router_call plain both))
        (orchestrator_proxy plain OrchestratorTest.types (router_call plain both))
        calls
        []
      ≡ relay_replies plain plain_wire_keeps MemoryTest.types OrchestratorTest.types MemoryTest.real
          OrchestratorTest.real
          (run_session MemoryTest.types OrchestratorTest.types MemoryTest.real OrchestratorTest.real
            calls []))
    × IsVetted plugins directory
        (some AnnounceTest.secret)
        count
        gated.allow
        announced
        (entry (plugin_of 7))
    × IsVetted plugins directory
        (some AnnounceTest.secret)
        count
        gated.allow
        announced
        (entry (plugin_of 8))
    × ((c : String × ℕ) × IsDialed net no_error (entry (plugin_of 7)) in_the_clear c)
    × ((c : String × ℕ) × IsDialed net no_error (entry (plugin_of 8)) in_the_clear c)
unfolding dial_memory dial_orchestrator
registered_session_example =
    registered_session plugins directory net plain plain_wire_keeps MemoryTest.types
      OrchestratorTest.types plugin_client MemoryTest.real OrchestratorTest.real
      (some AnnounceTest.secret) count gated.allow announced 0 (entry (plugin_of 7))
      (entry (plugin_of 8)) (rw memory_listed (inl refl)) (rw orchestrator_listed (inl refl))
      no_error in_the_clear to_memory to_orchestrator refl refl empty_router MemoryTest.router both
      MemoryTest.registered second_registered (λ creds conn h. refl) (λ creds conn h. refl) calls []
      calls_survive
