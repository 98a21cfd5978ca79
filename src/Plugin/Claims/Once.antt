-- ===== src/Plugin/Claims/Once.antt =====
-- plugin_router.go: the Plugin service is registered at most once on a server, however the calls of
-- NewPluginRouter interleave with one another and with the garbage collector.
use herrscher_transport.Prelude.{ℕ, ◌+◌, ◌≤◌, ◌<◌, true, false, ◌≡◌, arith}
use herrscher_transport.Errors.{ok, err, plugin_service_registered}
use herrscher_transport.Plugin.Claims.{World, start, enter, register, collect, new_plugin_router}

-- One step of one goroutine or of the collector. A server that a call holds is not collected, and
-- no call holds one that was.
pub data Step (B : Type 0) (w : World) : World → Type 0 where
  entering : (server : ℕ) → w.collected server ≡ false → Step B w (enter B w server).1
  registering : (server : ℕ) → 0 < w.pending server → Step B w (register w server)
  collecting : (server : ℕ) → w.pending server ≡ 0 → Step B w (collect w server)

pub data Reach (B : Type 0) : World → Type 0 where
  here : Reach B start
  next : {w w' : World} → Reach B w → Step B w w' → Reach B w'

-- What stands behind a server's claim: at most one registration, done or under way, and none for a
-- server that is not claimed and not collected.
record IsGuarded (w : World) (server : ℕ) : Type 0 where
  once : w.registered server + w.pending server ≤ 1
  claimed :
      w.claims.servers server ≡ false
      → w.collected server ≡ false
      → w.registered server + w.pending server ≡ 0

start-IsGuarded : (j : ℕ) → IsGuarded start j
start-IsGuarded j = ground arith

enter-IsGuarded :
    (B : Type 0) (w : World) (server j : ℕ)
    → w.collected server ≡ false
    → IsGuarded w server
    → IsGuarded w j
    → IsGuarded (enter B w server).1 j
unfolding enter
enter-IsGuarded B w server j c g h = ground arith

register-IsGuarded :
    (w : World) (server j : ℕ)
    → 0 < w.pending server
    → IsGuarded w server
    → IsGuarded w j
    → IsGuarded (register w server) j
unfolding register
register-IsGuarded w server j c g h = ground arith

collect-IsGuarded :
    (w : World) (server j : ℕ)
    → w.pending server ≡ 0
    → IsGuarded w j
    → IsGuarded (collect w server) j
unfolding collect
collect-IsGuarded w server j c h = ground arith

Step-IsGuarded :
    {B : Type 0} {w w' : World} → Step B w w' → ((j : ℕ) → IsGuarded w j) → (j : ℕ) → IsGuarded w' j
Step-IsGuarded {w = w} (entering server c) h j = enter-IsGuarded _ w server j c (h server) (h j)
Step-IsGuarded {w = w} (registering server p) h j = register-IsGuarded w server j p (h server) (h j)
Step-IsGuarded {w = w} (collecting server p) h j = collect-IsGuarded w server j p (h j)

Reach-IsGuarded : {B : Type 0} {w : World} → Reach B w → (j : ℕ) → IsGuarded w j
Reach-IsGuarded here j = start-IsGuarded j
Reach-IsGuarded (next r st) j = Step-IsGuarded st (Reach-IsGuarded r) j

-- However the calls of NewPluginRouter and the collector interleave, the Plugin service is never
-- registered twice on a server, and when a call is about to register it, it is not registered yet.
pub registered_once :
    {B : Type 0} {w : World}
    → Reach B w
    → (server : ℕ) → (w.registered server ≤ 1) × (0 < w.pending server → w.registered server ≡ 0)
registered_once r server =
    let g = (Reach-IsGuarded r server).once in (omega arith, λ p. omega arith)

module _ (B : Type 0) where
  claim_taken :
      (w : World) (server : ℕ)
      → w.claims.servers server ≡ true
      → new_plugin_router B w server ≡ (err plugin_service_registered, w)
  unfolding new_plugin_router
  claim_taken w server t = rw t

  claim_free :
      (w : World) (server : ℕ)
      → w.claims.servers server ≡ false
      → new_plugin_router B w server ≡ (ok tt, register (enter B w server).1 server)
  unfolding new_plugin_router
  claim_free w server t = rw t

  -- NewPluginRouter leaves the server claimed, whether it made a router or refused to.
  new_plugin_router-claims :
      (w : World) (server : ℕ) → (new_plugin_router B w server).1.claims.servers server ≡ true
  unfolding new_plugin_router
  new_plugin_router-claims w server = ground arith

  -- A second NewPluginRouter on a server is refused with plugin_service_registered and changes
  -- nothing, in particular registers nothing, whatever the state that the first one met.
  pub new_plugin_router_twice :
      (w : World) (server : ℕ)
      → new_plugin_router B (new_plugin_router B w server).1 server
        ≡ (err plugin_service_registered, (new_plugin_router B w server).1)
  new_plugin_router_twice w server =
      claim_taken (new_plugin_router B w server).1 server (new_plugin_router-claims w server)
