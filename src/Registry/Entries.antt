-- ===== src/Registry/Entries.antt =====
-- remote_registry.go: what the entries of a registry are, and what observe does to them.
use herrscher_transport.Prelude.{
  ◌≡◌, ◌≢◌, ◌⊎◌, ◌↔◌, inl, inr, true, false, String, List, [], ◌∷◌, ◌==◌, eq_iff, arith, All, put,
  if◌then◌else◌, Bool-cases,
}
use herrscher_transport.Errors.{Error, ok, err, unusable_announcement, addr_refused, Result-cases}
use herrscher_transport.Announce.{Announcement}
use herrscher_transport.Registry.{RemoteEntry, RemoteRegistry, Directory, entry, allowed, observe}

-- A property of all entries is kept by a write of an entry that has it.
pub All-put :
    {V : Type 0} (P : String × V → Type 0) (m : List (String × V)) (k : String) (v : V)
    → All P m
    → P (k, v)
    → All P (put m k v)
unfolding put
All-put P [] k v h p = (p, tt)
All-put P ((j, w) ∷ m) k v (q, h) p = elim (Bool-cases (j == k)) [
  | inl same ↦ rw same (rw ((eq_iff j k).0 same) p, h)
  | inr other ↦ rw other (q, All-put P m k v h p)
]

module _ {B Manifest : Type 0} (D : Directory B Manifest) where
  open D use {category, split_host_port}

  -- The announcement names an instance, a category and an address with a host and a port.
  pub record IsUsable (a : RemoteEntry Manifest) : Type 0 where
    pub host : String
    pub port : String
    pub instance_named : a.instance_id ≢ ""
    pub category_named : category a.manifest ≢ ""
    pub address_split : split_host_port a.grpc_addr ≡ ok (host, port)
    pub host_named : host ≢ ""
    pub port_named : port ≢ ""

  observe-IsUsable :
      (r : RemoteRegistry Manifest) (a : Announcement Manifest)
      → observe D r a ≢ err unusable_announcement
      → IsUsable (entry a)
  unfolding observe
  observe-IsUsable r a h = elim (Result-cases (split_host_port a.grpc_addr)) [
    | inl ((host, port), split) ↦ record {
      host = host;
      port = port;
      instance_named = λ e. h (ground (arith, eq_iff a.instance_id ""));
      category_named = λ e. h (ground (arith, eq_iff (category a.manifest) ""));
      address_split = split;
      host_named = λ e. h (ground (arith, eq_iff host ""));
      port_named = λ e. h (ground (arith, eq_iff port ""));
    }
    | inr (e, bad) ↦ absurd (h (ground arith))
  ]

  observe_kinds :
      (r : RemoteRegistry Manifest) (a : Announcement Manifest) (e : Error B)
      → observe D r a ≡ err e
      → (e ≡ unusable_announcement) ⊎ (e ≡ addr_refused)
  unfolding observe
  observe_kinds r a e h = ground arith

  allowed_of_observe :
      (r r' : RemoteRegistry Manifest) (a : Announcement Manifest)
      → observe D r a ≡ ok r'
      → (allowed r.allow a.grpc_addr ≡ true)
        × (r' ≡ record r { entries = put r.entries a.instance_id (entry a) })
  unfolding observe
  allowed_of_observe r r' a h = elim (Result-cases (split_host_port a.grpc_addr)) [
    | inl ((host, port), split) ↦ (ground arith, ground arith)
    | inr (e, bad) ↦ absurd (ground arith)
  ]

  -- On a usable announcement observe decides by the gate alone.
  observe_usable :
      (r : RemoteRegistry Manifest) (a : Announcement Manifest)
      → IsUsable (entry a)
      → observe D r a ≡ (
          if allowed r.allow a.grpc_addr
          then ok (record r { entries = put r.entries a.instance_id (entry a) })
          else err addr_refused)
  unfolding observe
  observe_usable r a u = rw u.address_split (
      ground (
        arith,
        eq_iff a.instance_id "",
        eq_iff (category a.manifest) "",
        eq_iff u.host "",
        eq_iff u.port "",
        u.instance_named,
        u.category_named,
        u.host_named,
        u.port_named,
      ))

  -- observe records an announcement exactly when it names an instance, a category and a host and port,
  -- and the gate allows its address; the registry is then the old one with the announcement's entry
  -- under its instance id.
  pub observe_iff :
      (r r' : RemoteRegistry Manifest) (a : Announcement Manifest)
      → (observe D r a ≡ ok r') ↔ (
          IsUsable (entry a)
          × (allowed r.allow a.grpc_addr ≡ true)
          × (r' ≡ record r { entries = put r.entries a.instance_id (entry a) }))
  observe_iff r r' a = (
    (λ h.
        let (gate, same) = allowed_of_observe r r' a h in
        (observe-IsUsable r a (λ bad. cc), gate, same)),
    (λ (u, gate, same). rw (observe_usable r a u, gate, same)),
  )

  -- The error says which check failed: addr_refused is for a usable announcement that the gate does
  -- not allow, unusable_announcement for one that is not usable, and there is no other error.
  pub observe_errors :
      (r : RemoteRegistry Manifest) (a : Announcement Manifest) (e : Error B)
      → observe D r a ≡ err e
      → ((e ≡ unusable_announcement) × ¬ IsUsable (entry a))
        ⊎ ((e ≡ addr_refused) × IsUsable (entry a) × (allowed r.allow a.grpc_addr ≡ false))
  observe_errors r a e h = elim (observe_kinds r a e h) [
    | inl kind ↦ inl (kind, λ u. ground (arith, observe_usable r a u))
    | inr kind ↦
        let u = observe-IsUsable r a (λ bad. cc) in
        inr (kind, u, ground (arith, observe_usable r a u))
  ]
