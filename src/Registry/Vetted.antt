-- ===== src/Registry/Vetted.antt =====
-- remote_registry.go: what holds of every entry that a query of a watching registry returns.
use herrscher_transport.Prelude.{
  ◌≡◌, refl, inl, inr, true, Bool, String, Option, List, [], ◌∷◌, All, Any, Any-map, subst, sym,
  ◌∙◌,
}
use herrscher_transport.Errors.{ok}
use herrscher_transport.Announce.{
  Announcement, AnnounceKey, Packages, OnRejected, open_announcement,
}
use herrscher_transport.Registry.{
  RemoteEntry, RemoteRegistry, Directory, entry, allowed, by_category,
}
use herrscher_transport.Registry.Entries.{IsUsable}
use herrscher_transport.Registry.Queries.{by_category_iff}
use herrscher_transport.Registry.Watching.{
  Message, watch_run, watch_run-IsTrusted, watch_run-IsAnnounced,
}

-- What holds of all members holds of the one that is found.
found_has :
    {A : Type 0} (P Q : A → Type 0) (xs : List A) → All P xs → Any Q xs → (x : A) × P x × Q x
found_has P Q [] h k = absurd k
found_has P Q (x ∷ xs) (h, hs) (inl k) = (x, h, k)
found_has P Q (x ∷ xs) (h, hs) (inr k) = found_has P Q xs hs k

module _ {B Manifest W : Type 0} (P : Packages B Manifest) (D : Directory B Manifest)
    (key : AnnounceKey) (on_rejected : OnRejected P W) (allow : Option (String → Bool)) where
  open D use {category}

  -- The entry is usable, the gate allows its address, and one of the messages was opened under the key
  -- to its announcement.
  abbrev pub IsVetted : List Message → RemoteEntry Manifest → Type 0
  IsVetted ms e =
      IsUsable D e
      × (allowed allow e.grpc_addr ≡ true)
      × Any
          (λ m.
            (a : Announcement Manifest) × (open_announcement P key m.0 m.1 ≡ ok a) × (e ≡ entry a))
          ms

  -- A registry that began empty, after any messages.
  abbrev pub watching : List Message → W → RemoteRegistry Manifest
  watching ms w = (watch_run P D key on_rejected ms (record { entries = []; allow = allow }, w)).0

  -- What a query returns is vetted, and of the category that was asked for.
  pub by_category-IsVetted :
      (ms : List Message) (w : W) (c : String) (e : RemoteEntry Manifest)
      → Any (λ x. x ≡ e) (by_category D (watching ms w) c)
      → (category e.manifest ≡ c) × IsVetted ms e
  by_category-IsVetted ms w c e listed =
      let start : RemoteRegistry Manifest = record { entries = []; allow = allow } in
      let among = (by_category_iff D (watching ms w) c e).0 listed in
      let trusted = watch_run-IsTrusted P D key on_rejected allow ms start w refl tt in
      let announced = watch_run-IsAnnounced P D key on_rejected ms start w refl in
      let (p, (_, usable, gate), (same, at)) =
        found_has _ _ (watching ms w).entries trusted among in
      let (q, origin, (same', _)) = found_has _ _ (watching ms w).entries announced among in
      (
        subst (λ x. category x.manifest ≡ c) same at,
        (
          subst (IsUsable D) same usable,
          subst (λ x. allowed allow x.grpc_addr ≡ true) same gate,
          Any-map (λ m (a, opened, is). (a, opened, sym same' ∙ is)) ms origin,
        ),
      )
