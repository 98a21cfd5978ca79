-- ===== src/Plugin/Claims.antt =====
-- pluginClaims and NewPluginRouter of plugin_router.go. A server is a number, which stands for the
-- weak pointer to it: two pointers are equal exactly when they were made from one server.
pub mod Once
use herrscher_transport.Prelude.{ℕ, suc, ◌-◌, Bool, true, false, ◌≡◌, nat_eq, if◌then◌else◌}
use herrscher_transport.Errors.{Error, Result, ok, err, plugin_service_registered}

-- The keys of the map `servers`.
pub record PluginClaims : Type 0 where
  pub servers : ℕ → Bool

-- m[k] = v for a map that is a function
abbrev pub update {ℓ} : {V : Type ℓ} → (ℕ → V) → ℕ → V → ℕ → V
update m k v j = if nat_eq k j then v else m j

-- claim: the error, or nil with the server entered
unfoldable pub claim : {B : Type 0} → PluginClaims → ℕ → Result B PluginClaims
claim c server =
    if c.servers server
    then err plugin_service_registered
    else ok (record { servers = update c.servers server true })

-- release: the cleanup that runs when the server is collected
unfoldable pub release : PluginClaims → ℕ → PluginClaims
release c server = record { servers = update c.servers server false }

-- The package's claims; how often the Plugin service was registered on each server, and how many
-- calls of NewPluginRouter for it stand between the claim and the registration; which servers the
-- garbage collector has taken.
pub record World : Type 0 where
  pub claims : PluginClaims
  pub registered : ℕ → ℕ
  pub pending : ℕ → ℕ
  pub collected : ℕ → Bool

abbrev pub start : World
start = record {
  claims = record { servers = λ s. false };
  registered = λ s. 0;
  pending = λ s. 0;
  collected = λ s. false;
}

claimed : {B : Type 0} → World → ℕ → Result B PluginClaims → Result B (Unit {0}) × World
claimed w server (err e) = (err e, w)
claimed w server (ok c) =
    (ok tt, record w { claims = c; pending = update w.pending server (suc (w.pending server)) })

-- The first half of NewPluginRouter: its claim, under the lock.
unfoldable pub enter : (B : Type 0) → World → ℕ → Result B (Unit {0}) × World
unfolding claimed claim
enter B w server = claimed w server (claim w.claims server)

-- The second half: pb.RegisterPluginServer, which is not under the lock. On a server that has the
-- service already, grpc exits the process.
unfoldable pub register : World → ℕ → World
register w server = record w {
  registered = update w.registered server (suc (w.registered server));
  pending = update w.pending server (w.pending server - 1);
}

-- The server is gone, and its cleanup runs.
unfoldable pub collect : World → ℕ → World
unfolding release
collect w server = record w {
  claims = release w.claims server;
  collected = update w.collected server true;
}

new_router_after : {B : Type 0} → ℕ → Result B (Unit {0}) × World → Result B (Unit {0}) × World
new_router_after server (err e, w) = (err e, w)
new_router_after server (ok u, w) = (ok u, register w server)

-- NewPluginRouter, when no other call runs in between.
unfoldable pub new_plugin_router : (B : Type 0) → World → ℕ → Result B (Unit {0}) × World
unfolding new_router_after enter register
new_plugin_router B w server = new_router_after server (enter B w server)
