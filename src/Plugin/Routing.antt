-- ===== src/Plugin/Routing.antt =====
-- plugin_router.go: a port is served by the skeleton that was first added on it.
use herrscher_transport.Prelude.{
  ◌≡◌, ◌≢◌, ◌⊎◌, String, Option, none, some, List, [], ◌∷◌, get, put, get-put, get-put_self,
  get-put_ne, arith, eq_iff, Option-cases, inl, inr,
}
use herrscher_transport.Errors.{Result, ok, err, noted, unknown_port, port_registered}
use herrscher_transport.WireError.{ErrorWire}
use herrscher_transport.Exec.{pure}
use herrscher_transport.Plugin.{
  MethodEnvelope, PluginServer, PluginRouter, empty_router, fail, add, router_call,
}

module _ {B S : Type 0} where
  -- A refused registration leaves the router as it was.
  abbrev keep : PluginRouter B S → Result B (PluginRouter B S) → PluginRouter B S
  keep r (ok r') = r'
  keep r (err e) = r

  -- One registration after another.
  unfoldable pub add_all : PluginRouter B S → List (String × PluginServer B S) → PluginRouter B S
  add_all r [] = r
  add_all r ((port, skeleton) ∷ regs) = add_all (keep r (add r port skeleton)) regs

  abbrev first_of_both :
      Option (PluginServer B S) → Option (PluginServer B S) → Option (PluginServer B S)
  first_of_both (some a) b = some a
  first_of_both none b = b

  get-keep-add :
      (r : PluginRouter B S) (port j : String) (sk : PluginServer B S)
      → get (keep r (add r port sk)).ports j
        ≡ first_of_both (get r.ports j) (get ((port, sk) ∷ []) j)
  unfolding add get
  get-keep-add r port j sk = ground (arith, get-put r.ports port j sk, eq_iff port j)

  get-add_all :
      (r : PluginRouter B S) (regs : List (String × PluginServer B S)) (j : String)
      → get (add_all r regs).ports j ≡ first_of_both (get r.ports j) (get regs j)
  unfolding add_all get
  get-add_all r [] j = ground arith
  get-add_all r ((port, sk) ∷ regs) j =
      ground (arith, get-add_all (keep r (add r port sk)) regs j, get-keep-add r port j sk)

  -- A second registration on a port is refused, a first one is kept, and no other port changes.
  pub add_lem :
      (r : PluginRouter B S) (port : String) (sk : PluginServer B S)
      → ((old : PluginServer B S) × (get r.ports port ≡ some old)
          × (add r port sk ≡ err (noted port_registered port)))
        ⊎ ((r' : PluginRouter B S) × (get r.ports port ≡ none)
            × (add r port sk ≡ ok r')
            × (get r'.ports port ≡ some sk)
            × ((j : String) → port ≢ j → get r'.ports j ≡ get r.ports j))
  unfolding add
  add_lem r port sk = elim (Option-cases (get r.ports port)) [
    | inl n ↦ inr (
      record { ports = put r.ports port sk },
      n,
      rw n,
      get-put_self r.ports port sk,
      λ j h. get-put_ne r.ports port j sk h,
    )
    | inr (old, h) ↦ inl (old, h, rw h)
  ]

module _ {B S : Type 0} (E : ErrorWire B) where
  -- The skeleton for a call among the registrations, or the answer to an unknown port.
  unfoldable pub served_by : Option (PluginServer B S) → PluginServer B S
  served_by (some skeleton) env = skeleton env
  served_by none env = pure (fail E (unknown_port env.port))

  -- A router answers a call by the first skeleton that was registered on the call's port, and a port
  -- that no registration names by the failure that reports it.
  pub router_call-add_all :
      (regs : List (String × PluginServer B S)) (env : MethodEnvelope) (s : S)
      → router_call E (add_all empty_router regs) env s ≡ served_by (get regs env.port) env s
  unfolding router_call served_by get
  router_call-add_all regs env s = ground (arith, get-add_all empty_router regs env.port)

  -- After a registration that was not refused, calls on its port go to its skeleton.
  pub router_call-add :
      (r r' : PluginRouter B S) (env : MethodEnvelope) (sk : PluginServer B S)
      → add r env.port sk ≡ ok r'
      → router_call E r' env ≡ sk env
  unfolding router_call add
  router_call-add r r' env sk h = ground (arith, get-put_self r.ports env.port sk)

  -- A registration changes nothing for calls on other ports.
  pub router_call-add_other :
      (r r' : PluginRouter B S) (port : String) (env : MethodEnvelope) (sk : PluginServer B S)
      → port ≢ env.port
      → add r port sk ≡ ok r'
      → router_call E r' env ≡ router_call E r env
  unfolding router_call add
  router_call-add_other r r' port env sk other h =
      ground (arith, get-put_ne r.ports port env.port sk other)
