-- ===== src/Dial/Loopback.antt =====
-- remote_registry.go: a connection in the clear leads to the local host only.
use herrscher_transport.Prelude.{
  ◌≡◌, refl, ◌≢◌, ◌↔◌, ◌⊎◌, inl, inr, true, false, String, Option, none, some, arith, eq_iff, subst,
  sym,
}
use herrscher_transport.Errors.{
  Error, ok, err, plaintext_dial, Result-cases, bind-eq-ok, ok-injective,
}
use herrscher_transport.Dial.{
  Network, require_loopback, dial_conn, dial_backend, dial_memory, dial_orchestrator,
  choose_credentials,
}
use herrscher_transport.Registry.{RemoteEntry}
use herrscher_transport.Memory.Proxy.{MemoryProxy, close_memory_proxy}
use herrscher_transport.Orchestrator.Proxy.{OrchestratorProxy, close_orchestrator_proxy}
use herrscher_transport.Backend.Proxy.{BackendProxy, close_backend_proxy}

module _ {B : Type 0} (N : Network B) where
  open N use {Credentials, Conn, split_host_port, is_loopback_ip, insecure, new_client, close_conn}

  -- The address splits into a host and a port, and the host is "localhost" or a loopback IP.
  abbrev pub IsLoopback : String → Type 0
  IsLoopback addr =
      (parts : String × String) × (split_host_port addr ≡ ok parts)
      × ((parts.0 ≡ "localhost") ⊎ (is_loopback_ip parts.0 ≡ true))

  -- requireLoopback accepts exactly the loopback addresses.
  pub require_loopback_iff : (addr : String) → (require_loopback N addr ≡ ok tt) ↔ IsLoopback addr
  unfolding require_loopback
  require_loopback_iff addr = (
    (λ h. elim (Result-cases (split_host_port addr)) [
      | inl (parts, split) ↦ (parts, split, ground (arith, eq_iff parts.0 "localhost"))
      | inr (e, bad) ↦ absurd (ground arith)
    ]),
    (λ (parts, split, local). ground (arith, eq_iff parts.0 "localhost")),
  )

  module _ {Manifest : Type 0} where
    -- How a connection was dialed: while the context was alive, with the credentials that were given;
    -- or none were given, and it is in the clear and to a loopback address.
    abbrev pub IsDialed :
        Option (Error B) → RemoteEntry Manifest → Option Credentials → Conn → Type 0
    IsDialed ctx_err e creds conn =
        (ctx_err ≡ none)
        × (((c : Credentials) × (creds ≡ some c) × (new_client e.grpc_addr c ≡ ok conn))
            ⊎ ((creds ≡ none)
                × IsLoopback e.grpc_addr
                × (new_client e.grpc_addr insecure ≡ ok conn)))

    dial_conn-IsDialed :
        (ctx_err : Option (Error B)) (e : RemoteEntry Manifest) (creds : Option Credentials)
        (conn : Conn)
        → dial_conn N ctx_err e creds ≡ ok conn
        → IsDialed ctx_err e creds conn
    unfolding dial_conn
    dial_conn-IsDialed (some ended) e creds conn h = cc
    dial_conn-IsDialed none e (some c) conn h = (refl, inl (c, refl, h))
    dial_conn-IsDialed none e none conn h =
        let (chosen, granted, made) =
          bind-eq-ok (choose_credentials N e.grpc_addr none) (new_client e.grpc_addr) h in
        let (u, local, same) =
          bind-eq-ok (require_loopback N e.grpc_addr) (λ u. ok insecure) granted in
        (
          refl,
          inr (
            refl,
            (require_loopback_iff e.grpc_addr).0 local,
            subst (λ c. new_client e.grpc_addr c ≡ ok conn) (sym (ok-injective same)) made,
          ),
        )

    -- DialBackend succeeds only while the context is alive, with the credentials that were given or,
    -- when none were given, in the clear to a loopback address. The proxy opens its streams on the
    -- connection that was dialed, and closing the proxy closes that connection.
    pub dial_backend_sound :
        (ctx_err : Option (Error B)) (e : RemoteEntry Manifest) (creds : Option Credentials)
        (p : BackendProxy Conn)
        → dial_backend N ctx_err e creds ≡ ok p
        → IsDialed ctx_err e creds p.cc × (close_backend_proxy close_conn p ≡ close_conn p.cc)
    unfolding dial_backend close_backend_proxy
    dial_backend_sound ctx_err e creds p h =
        let (conn, dialed, built) = bind-eq-ok (dial_conn N ctx_err e creds) _ h in
        rw (← ok-injective built) (dial_conn-IsDialed ctx_err e creds conn dialed, refl)

    module _ {Client : Type 0} (new_plugin_client : Conn → Client) where
      pub dial_memory_sound :
          (ctx_err : Option (Error B)) (e : RemoteEntry Manifest) (creds : Option Credentials)
          (p : MemoryProxy Client Conn)
          → dial_memory N new_plugin_client ctx_err e creds ≡ ok p
          → (conn : Conn) × IsDialed ctx_err e creds conn
            × (p.client ≡ new_plugin_client conn)
            × (close_memory_proxy close_conn p ≡ close_conn conn)
      unfolding dial_memory close_memory_proxy
      dial_memory_sound ctx_err e creds p h =
          let (conn, dialed, built) = bind-eq-ok (dial_conn N ctx_err e creds) _ h in
          rw (← ok-injective built)
            (conn, dial_conn-IsDialed ctx_err e creds conn dialed, refl, refl)

      pub dial_orchestrator_sound :
          (ctx_err : Option (Error B)) (e : RemoteEntry Manifest) (creds : Option Credentials)
          (p : OrchestratorProxy Client Conn)
          → dial_orchestrator N new_plugin_client ctx_err e creds ≡ ok p
          → (conn : Conn) × IsDialed ctx_err e creds conn
            × (p.client ≡ new_plugin_client conn)
            × (close_orchestrator_proxy close_conn p ≡ close_conn conn)
      unfolding dial_orchestrator close_orchestrator_proxy
      dial_orchestrator_sound ctx_err e creds p h =
          let (conn, dialed, built) = bind-eq-ok (dial_conn N ctx_err e creds) _ h in
          rw (← ok-injective built)
            (conn, dial_conn-IsDialed ctx_err e creds conn dialed, refl, refl)

  -- Without credentials, an entry whose address splits but whose host is no loopback host is refused
  -- with the error that names the address.
  pub plaintext_refused :
      {Manifest : Type 0} (e : RemoteEntry Manifest) (parts : String × String)
      → split_host_port e.grpc_addr ≡ ok parts
      → parts.0 ≢ "localhost"
      → is_loopback_ip parts.0 ≡ false
      → dial_conn N none e none ≡ err (plaintext_dial e.grpc_addr)
  unfolding dial_conn
  plaintext_refused e parts split other remote = ground (arith, eq_iff parts.0 "localhost")
