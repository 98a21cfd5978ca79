-- ===== src/Registry/Lasting.antt =====
-- remote_registry.go: an announced instance stays in the queries of a watching registry.
use herrscher_transport.Prelude.{
  ◌≡◌, ◌⊎◌, refl, inl, inr, Bool, String, Option, some, List, [], ◌∷◌, All, Any, Any-map, get,
  Bool-cases, ◌==◌, some_injective, ap,
}
use herrscher_transport.Announce.{AnnounceKey, Packages, OnRejected}
use herrscher_transport.Registry.{RemoteEntry, RemoteRegistry, Directory, Watched, by_category}
use herrscher_transport.Registry.Queries.{by_category_iff}
use herrscher_transport.Registry.Watching.{Message, watch_run}
use herrscher_transport.Registry.Latest.{
  Announces, IsSilent, IsNewest, entry_after, watch_run-IsNewest,
}

-- What a map holds for a key is among its entries.
Any-get :
    {V : Type 0} (m : List (String × V)) (k : String) (v : V)
    → get m k ≡ some v
    → Any (λ p. p.1 ≡ v) m
unfolding get
Any-get [] k v h = cc
Any-get ((j, w) ∷ m) k v h = elim (Bool-cases (j == k)) [
  | inl this ↦ inl (some_injective (rw this at h))
  | inr other ↦ inr (Any-get m k v (rw other at h))
]

module _ {B Manifest : Type 0} (P : Packages B Manifest) (D : Directory B Manifest)
    (key : AnnounceKey) (allow : Option (String → Bool)) where
  open D use {category}

  abbrev pub IsAnnouncer : String → Message → Type 0
  IsAnnouncer id m = (e : RemoteEntry Manifest) × Announces P D key allow id e m

  announces_or_IsSilent :
      (id : String) (m : Message) → IsAnnouncer id m ⊎ IsSilent P D key allow id m
  announces_or_IsSilent id m =
      let start : RemoteRegistry Manifest = record { entries = []; allow = allow } in
      elim (entry_after P D key allow {W = Unit} (λ e w. w) id m start tt refl).1 [
        | inl (e, announced, _) ↦ inl (e, announced)
        | inr (silent, _) ↦ inr silent
      ]

  some-IsNewest :
      (id : String) (ms : List Message)
      → ((e : RemoteEntry Manifest) × IsNewest P D key allow id e ms)
        ⊎ All (IsSilent P D key allow id) ms
  some-IsNewest id [] = inr tt
  some-IsNewest id (m ∷ ms) = elim (some-IsNewest id ms) [
    | inl (e, newest) ↦ inl (e, inl newest)
    | inr quiet ↦ elim (announces_or_IsSilent id m) [
      | inl (e, announced) ↦ inl (e, inr (announced, quiet))
      | inr silent ↦ inr (silent, quiet)
    ]
  ]

  announcer_not-IsSilent :
      (id : String) (ms : List Message)
      → Any (IsAnnouncer id) ms
      → ¬ All (IsSilent P D key allow id) ms
  announcer_not-IsSilent id [] h quiet = h
  announcer_not-IsSilent id (m ∷ ms) (inl (e, announced)) (silent, quiet) = silent e announced
  announcer_not-IsSilent id (m ∷ ms) (inr h) (silent, quiet) = announcer_not-IsSilent id ms h quiet

  module _ {W : Type 0} (on_rejected : OnRejected P W) where
    -- Once a message that the registry accepts has announced an instance, the instance stays listed:
    -- whatever other messages come before and after, the query of its category returns the entry that
    -- the last message to announce the instance gave it.
    pub announced_stays_listed :
        (id : String) (ms : List Message) (s : Watched Manifest W)
        → s.0.allow ≡ allow
        → Any (IsAnnouncer id) ms
        → (e : RemoteEntry Manifest) × IsNewest P D key allow id e ms
          × Any
              (λ x. x ≡ e)
              (by_category D (watch_run P D key on_rejected ms s).0 (category e.manifest))
    announced_stays_listed id ms s same h = elim (some-IsNewest id ms) [
      | inl (e, newest) ↦
          let after = (watch_run P D key on_rejected ms s).0 in
          let held = (watch_run-IsNewest P D key allow on_rejected id e ms s same).1 (inl newest) in
          (
            e,
            newest,
            (by_category_iff D after (category e.manifest) e).1 (
                Any-map (λ p is. (is, ap (λ x. category x.manifest) is)) after.entries
                  (Any-get after.entries id e held)),
          )
      | inr quiet ↦ absurd (announcer_not-IsSilent id ms h quiet)
    ]
