-- ===== src/Tests/Plugin.antt =====
-- Routers, claims and their interleavings on small examples.
use herrscher_transport.Prelude.{arith, ℕ, suc, ◌≡◌, refl, ◌≤◌, ◌<◌, String, List, [], ◌∷◌, get}
use herrscher_transport.Errors.{ok}
use herrscher_transport.Plugin.{MethodEnvelope, PluginServer, empty_router, router_call}
use herrscher_transport.Plugin.Routing.{add_all, served_by, router_call-add_all}
use herrscher_transport.Plugin.Claims.{World, start, enter, register}
use herrscher_transport.Plugin.Claims.Once.{
  Reach, here, next, entering, registering, registered_once,
}
use herrscher_transport.WireError.Relay.{relay, relay-relay}
use herrscher_transport.Errors.{wrap, budget}
use herrscher_transport.Tests.Wire.{plain}

abbrev echo : ℕ → PluginServer ℕ ℕ
echo n env s = (ok (record { json_payload = n ∷ env.json_payload; error = "" }), suc s)

abbrev to_memory : MethodEnvelope
to_memory = record { port = "memory"; method = "Recall"; json_payload = 3 ∷ [] }

abbrev registrations : List (String × PluginServer ℕ ℕ)
registrations = ("backend", echo 1) ∷ ("memory", echo 2) ∷ ("memory", echo 7) ∷ []

-- The second registration on "memory" was refused.
router_call-add_all_example :
    router_call plain (add_all empty_router registrations) to_memory 0
    ≡ served_by plain (get registrations "memory") to_memory 0
router_call-add_all_example = router_call-add_all plain registrations to_memory 0

-- Two calls of NewPluginRouter on server 4 and one on server 6, interleaved.
abbrev raced : World
raced = (enter ℕ (enter ℕ (enter ℕ start 4).1 6).1 4).1

raced-Reach : Reach ℕ (register raced 4)
unfolding enter register
raced-Reach =
    next (next (next (next here (entering 4 refl)) (entering 6 refl)) (entering 4 refl))
      (registering 4 (omega arith))

registered_once_example :
    ((register raced 4).registered 4 ≤ 1)
    × (0 < (register raced 4).pending 4 → (register raced 4).registered 4 ≡ 0)
registered_once_example = registered_once raced-Reach 4

relay-relay_example :
    relay plain (relay plain (wrap "store" (budget 5))) ≡ relay plain (wrap "store" (budget 5))
relay-relay_example = relay-relay plain (wrap "store" (budget 5))
