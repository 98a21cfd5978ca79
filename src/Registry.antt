-- ===== src/Registry.antt =====
-- remote_registry.go: the announced plugins that passed the address gate. contracts.Manifest and its
-- categories, and net.SplitHostPort, are parameters. The mutex makes each operation one step.
pub mod Entries
pub mod Watching
pub mod Latest
pub mod Lasting
pub mod Vetted
pub mod Queries
pub mod Discovery
use mathlib.Core.List.{foldl}
use herrscher_transport.Prelude.{
  Bool, true, false, not, ◌||◌, String, ℤ, Option, none, some, List, [], ◌∷◌, ◌==◌, put,
  if◌then◌else◌,
}
use herrscher_transport.Errors.{Error, Result, ok, err, unusable_announcement, addr_refused}
use herrscher_transport.Codec.{Bytes}
use herrscher_transport.Announce.{
  Announcement, AnnounceKey, Packages, OnRejected, handle_message, subscribe_announcements,
}

pub record RemoteEntry (Manifest : Type 0) : Type 0 where
  pub manifest : Manifest
  pub grpc_addr : String
  pub instance_id : String

-- Announcement.entry
abbrev pub entry : {Manifest : Type 0} → Announcement Manifest → RemoteEntry Manifest
entry a = record { manifest = a.manifest; grpc_addr = a.grpc_addr; instance_id = a.instance_id }

pub record RemoteRegistry (Manifest : Type 0) : Type 0 where
  pub entries : List (String × RemoteEntry Manifest)
  pub allow : Option (String → Bool)

-- contracts.Manifest.Category, the three categories that the queries name, and net.SplitHostPort.
pub record Directory (B Manifest : Type 0) : Type 0 where
  pub category : Manifest → String
  pub category_memory : String
  pub category_orchestrator : String
  pub category_backend : String
  pub split_host_port : String → Result B (String × String)

-- RegistryOption
abbrev pub RegistryOption : Type 0 → Type 0
RegistryOption Manifest = RemoteRegistry Manifest → RemoteRegistry Manifest

module _ {Manifest : Type 0} where
  -- WithAddrAllow; a nil function is `none`
  unfoldable pub with_addr_allow : Option (String → Bool) → RegistryOption Manifest
  with_addr_allow allow r = record r { allow = allow }

  -- NewRemoteRegistry
  unfoldable pub new_remote_registry : List (RegistryOption Manifest) → RemoteRegistry Manifest
  new_remote_registry opts = foldl (λ r o. o r) (record { entries = []; allow = none }) opts

-- r.allow != nil && r.allow(addr)
abbrev pub allowed : Option (String → Bool) → String → Bool
allowed none addr = false
allowed (some allow) addr = allow addr

module _ {B Manifest : Type 0} (D : Directory B Manifest) where
  open D use {category, category_memory, category_orchestrator, category_backend, split_host_port}

  gate : RemoteRegistry Manifest → Announcement Manifest → Result B (RemoteRegistry Manifest)
  gate r a =
      if not (allowed r.allow a.grpc_addr)
      then err addr_refused
      else ok (record r { entries = put r.entries a.instance_id (entry a) })

  check_address :
      RemoteRegistry Manifest
      → Announcement Manifest
      → Result B (String × String)
      → Result B (RemoteRegistry Manifest)
  unfolding gate
  check_address r a (err e) = err unusable_announcement
  check_address r a (ok (host, port)) =
      if host == "" || port == "" then err unusable_announcement else gate r a

  -- RemoteRegistry.observe: the registry with the entry, or the error, which leaves it as it is
  unfoldable pub observe :
      RemoteRegistry Manifest → Announcement Manifest → Result B (RemoteRegistry Manifest)
  unfolding check_address
  observe r a =
      if a.instance_id == "" || category a.manifest == ""
      then err unusable_announcement
      else check_address r a (split_host_port a.grpc_addr)

  -- byCategory, in the order of the entries; Go's order over a map is any.
  select : String → List (String × RemoteEntry Manifest) → List (RemoteEntry Manifest)
  select c [] = []
  select c ((id, e) ∷ m) =
      let rest = select c m in if category e.manifest == c then e ∷ rest else rest

  unfoldable pub by_category : RemoteRegistry Manifest → String → List (RemoteEntry Manifest)
  unfolding select
  by_category r c = select c r.entries

  -- Memories, Orchestrators, Backends
  unfoldable pub memories : RemoteRegistry Manifest → List (RemoteEntry Manifest)
  unfolding by_category
  memories r = by_category r category_memory

  unfoldable pub orchestrators : RemoteRegistry Manifest → List (RemoteEntry Manifest)
  unfolding by_category
  orchestrators r = by_category r category_orchestrator

  unfoldable pub backends : RemoteRegistry Manifest → List (RemoteEntry Manifest)
  unfolding by_category
  backends r = by_category r category_backend

-- What a watching registry and its hook act on: the registry, and the rest of the process.
abbrev pub Watched : Type 0 → Type 0 → Type 0
Watched Manifest W = RemoteRegistry Manifest × W

module _ {B Manifest W : Type 0} (P : Packages B Manifest) (D : Directory B Manifest) where
  abbrev pub reject : OnRejected P W → Error B → Watched Manifest W → Watched Manifest W
  reject on_rejected e (r, w) = (r, on_rejected e w)

  recorded :
      OnRejected P W → Result B (RemoteRegistry Manifest) → Watched Manifest W → Watched Manifest W
  recorded on_rejected (ok r') (r, w) = (r', w)
  recorded on_rejected (err e) (r, w) = (r, on_rejected e w)

  -- The hook that Watch installs for an announcement.
  unfoldable pub on_announcement :
      OnRejected P W → Announcement Manifest → Watched Manifest W → Watched Manifest W
  unfolding recorded
  on_announcement on_rejected a s = recorded on_rejected (observe D s.0 a) s

  -- With a nil hook nothing is installed, so what its closure does is never run.
  -- RemoteRegistry.Watch: the message handler, once conn.Subscribe, which is `subscribe`, has taken it
  unfoldable pub watch :
      ((subject : String) → Result B (Unit {0}))
      → AnnounceKey
      → Option (OnRejected P W)
      → Result B (Bytes → ℤ → Watched Manifest W → Watched Manifest W)
  unfolding on_announcement
  watch subscribe key none = subscribe_announcements P subscribe key (some (λ a s. s)) none
  watch subscribe key (some on_rejected) =
      subscribe_announcements P subscribe key (some (on_announcement on_rejected))
        (some (reject on_rejected))
