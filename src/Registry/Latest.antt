-- ===== src/Registry/Latest.antt =====
-- remote_registry.go: the entry that a watching registry has for an instance, as the history of its
-- messages determines it.
use herrscher_transport.Prelude.{
  ◌≡◌, ◌≢◌, ◌↔◌, ◌⊎◌, refl, inl, inr, true, Bool, String, Option, some, List, [], ◌∷◌, All, put,
  get, get-put_self, get-put_ne, eq_iff, arith, Bool-cases, ◌==◌, sym, ap, subst, ◌∙◌,
  some_injective,
}
use herrscher_transport.Errors.{Error, ok, err, ok-injective}
use herrscher_transport.Announce.{
  Announcement, AnnounceKey, Packages, OnRejected, open_announcement,
}
use herrscher_transport.Registry.{
  RemoteEntry, RemoteRegistry, Directory, Watched, entry, allowed, observe,
}
use herrscher_transport.Registry.Entries.{IsUsable, observe_iff}
use herrscher_transport.Registry.Watching.{Message, watch_message, watch_run, watch_message_once}

module _ {B Manifest : Type 0} (P : Packages B Manifest) (D : Directory B Manifest)
    (key : AnnounceKey) (allow : Option (String → Bool)) where
  -- The message announces the entry for the instance: it is opened under the key to a usable
  -- announcement of that instance, at an address that the gate allows.
  abbrev pub Announces : String → RemoteEntry Manifest → Message → Type 0
  Announces id e m =
      (a : Announcement Manifest) × (open_announcement P key m.0 m.1 ≡ ok a)
      × IsUsable D (entry a)
      × (allowed allow a.grpc_addr ≡ true)
      × (a.instance_id ≡ id)
      × (e ≡ entry a)

  -- The message announces nothing for the instance.
  abbrev pub IsSilent : String → Message → Type 0
  IsSilent id m = (e : RemoteEntry Manifest) → ¬ Announces id e m

  -- The entry is what the last of the messages that announces the instance announces.
  abbrev pub IsNewest : String → RemoteEntry Manifest → List Message → Type 0
  IsNewest id e [] = ⊥
  IsNewest id e (m ∷ ms) = IsNewest id e ms ⊎ (Announces id e m × All (IsSilent id) ms)

  -- A message is opened to one announcement at most.
  announced_by :
      (id : String) (a : Announcement Manifest) (m : Message) (e : RemoteEntry Manifest)
      → open_announcement P key m.0 m.1 ≡ ok a
      → Announces id e m
      → (a.instance_id ≡ id) × (e ≡ entry a)
  announced_by id a m e opened (b, again, u, gate, this, same) =
      let b-a = ok-injective (sym again ∙ opened) in
      (subst (λ c. c.instance_id ≡ id) b-a this, same ∙ ap entry b-a)

  IsSilent-unopened :
      (id : String) (m : Message) (r : RemoteRegistry Manifest)
      → r.allow ≡ allow
      → ((a : Announcement Manifest) (r' : RemoteRegistry Manifest)
          → open_announcement P key m.0 m.1 ≡ ok a
          → observe D r a ≢ ok r')
      → IsSilent id m
  IsSilent-unopened id m r same never e (a, opened, u, gate, this, is) =
      let after : RemoteRegistry Manifest = record r {
        entries = put r.entries a.instance_id (entry a);
      } in
      never a after opened ((observe_iff D r after a).1 (u, rw same gate, refl))

  never_recorded :
      (m : Message) (r : RemoteRegistry Manifest) (e : Error B)
      → (open_announcement P key m.0 m.1 ≡ err e)
        ⊎ ((a : Announcement Manifest) × (open_announcement P key m.0 m.1 ≡ ok a)
            × (observe D r a ≡ err e))
      → (a : Announcement Manifest) (r' : RemoteRegistry Manifest)
      → open_announcement P key m.0 m.1 ≡ ok a
      → observe D r a ≢ ok r'
  never_recorded m r e (inl shut) a r' opened seen = cc
  never_recorded m r e (inr (b, opened, refused)) a r' again seen =
      let b-a = ok-injective (sym opened ∙ again) in absurd (cc)

  -- One message more at the front of a history, from the final entry to the history and back.
  IsNewest-before :
      (id : String) (e : RemoteEntry Manifest) (m : Message) (ms : List Message)
      {before after final : Option (RemoteEntry Manifest)}
      → (final ≡ some e → IsNewest id e ms ⊎ (All (IsSilent id) ms × (after ≡ some e)))
      → ((x : RemoteEntry Manifest) × Announces id x m × (after ≡ some x))
        ⊎ (IsSilent id m × (after ≡ before))
      → final ≡ some e
      → IsNewest id e (m ∷ ms) ⊎ (All (IsSilent id) (m ∷ ms) × (before ≡ some e))
  IsNewest-before id e m ms later now held = elim (later held) [
    | inl newest ↦ inl (inl newest)
    | inr (quiet, left) ↦ elim now [
      | inl (x, announced, found) ↦
          let x-e = some_injective (sym found ∙ left) in
          inl (inr (subst (λ y. Announces id y m) x-e announced, quiet))
      | inr (silent, kept) ↦ inr ((silent, quiet), sym kept ∙ left)
    ]
  ]

  IsNewest-after :
      (id : String) (e : RemoteEntry Manifest) (m : Message) (ms : List Message)
      {before after final : Option (RemoteEntry Manifest)}
      → (IsNewest id e ms ⊎ (All (IsSilent id) ms × (after ≡ some e)) → final ≡ some e)
      → ((x : RemoteEntry Manifest) × Announces id x m × (after ≡ some x))
        ⊎ (IsSilent id m × (after ≡ before))
      → IsNewest id e (m ∷ ms) ⊎ (All (IsSilent id) (m ∷ ms) × (before ≡ some e))
      → final ≡ some e
  IsNewest-after id e m ms later now (inl (inl newest)) = later (inl newest)
  IsNewest-after id e m ms later (inl (x, (a, opened, _, _, _, is), found)) (inl (inr (h, quiet))) =
      later (inr (quiet, found ∙ ap some (is ∙ sym (announced_by id a m e opened h).1)))
  IsNewest-after id e m ms later (inr (silent, kept)) (inl (inr (h, quiet))) = absurd (silent e h)
  IsNewest-after id e m ms later (inl (x, h, found)) (inr ((silent, quiet), held)) =
      absurd (silent x h)
  IsNewest-after id e m ms later (inr (silent, kept)) (inr ((_, quiet), held)) =
      later (inr (quiet, kept ∙ held))

  not_before :
      (id : String) (e : RemoteEntry Manifest) (held : Option (RemoteEntry Manifest))
      → IsNewest id e [] ⊎ (All (IsSilent id) [] × (held ≡ some e))
      → held ≡ some e
  not_before id e held (inl newest) = absurd newest
  not_before id e held (inr (_, is)) = is

  module _ {W : Type 0} (on_rejected : OnRejected P W) where
    -- What one message does to the entry of one instance: it announces the new entry, or announces
    -- nothing for the instance and leaves its entry.
    pub entry_after :
        (id : String) (m : Message) (r : RemoteRegistry Manifest) (w : W)
        → r.allow ≡ allow
        → let after = (watch_message P D key on_rejected m (r, w)).0 in
          (after.allow ≡ allow)
          × (((e : RemoteEntry Manifest) × Announces id e m × (get after.entries id ≡ some e))
              ⊎ (IsSilent id m × (get after.entries id ≡ get r.entries id)))
    entry_after id m r w same = elim (watch_message_once P D key on_rejected m r w) [
      | inl (a, r', opened, seen, done) ↦
          let (u, gate, new) = (observe_iff D r r' a).0 seen in
          elim (Bool-cases (a.instance_id == id)) [
            | inl this ↦
                let is = (eq_iff a.instance_id id).0 this in
                rw (done, new)
                  (
                    same,
                    inl (
                      entry a,
                      (a, opened, u, rw same at gate, is, refl),
                      rw (sym is) (get-put_self r.entries a.instance_id (entry a)),
                    ),
                  )
            | inr other ↦
                let ne : a.instance_id ≢ id = λ is. ground (arith, eq_iff a.instance_id id) in
                rw (done, new)
                  (
                    same,
                    inr (
                      λ e h. ne (announced_by id a m e opened h).0,
                      get-put_ne r.entries a.instance_id id (entry a) ne,
                    ),
                  )
          ]
      | inr (e, done, why) ↦
          rw done (same, inr (IsSilent-unopened id m r same (never_recorded m r e why), refl))
    ]

    -- The entry that the registry has for an instance is what the last message that announced the
    -- instance announced or, when none did, the entry that it had before.
    pub watch_run-IsNewest :
        (id : String) (e : RemoteEntry Manifest) (ms : List Message) (s : Watched Manifest W)
        → s.0.allow ≡ allow
        → (get (watch_run P D key on_rejected ms s).0.entries id ≡ some e)
          ↔ (IsNewest id e ms ⊎ (All (IsSilent id) ms × (get s.0.entries id ≡ some e)))
    unfolding watch_run
    watch_run-IsNewest id e [] s same =
        ((λ held. inr (tt, held)), not_before id e (get s.0.entries id))
    watch_run-IsNewest id e (m ∷ ms) s same =
        let (same', after) = entry_after id m s.0 s.1 same in
        let later = watch_run-IsNewest id e ms (watch_message P D key on_rejected m s) same' in
        (IsNewest-before id e m ms later.0 after, IsNewest-after id e m ms later.1 after)
