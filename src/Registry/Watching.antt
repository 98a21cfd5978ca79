-- ===== src/Registry/Watching.antt =====
-- remote_registry.go: what a sequence of messages makes of a watched registry.
use herrscher_transport.Prelude.{
  ◌≡◌, refl, ◌⊎◌, inl, inr, Bool, true, String, ℤ, Option, none, List, [], ◌∷◌, All, Any, All-map,
  All-Any, All-const, sym, subst,
}
use herrscher_transport.Errors.{Error, ok, err, Result-cases}
use herrscher_transport.Codec.{Bytes}
use herrscher_transport.Announce.{
  Announcement, AnnounceKey, Packages, OnRejected, open_announcement, handle_message,
}
use herrscher_transport.Registry.{
  RemoteEntry, RemoteRegistry, Directory, Watched, entry, allowed, observe, on_announcement, reject,
}
use herrscher_transport.Registry.Entries.{IsUsable, All-put, observe_iff}

-- A message and the receiver's clock when it arrived.
abbrev pub Message : Type 0
Message = Bytes × ℤ

module _ {B Manifest W : Type 0} (P : Packages B Manifest) (D : Directory B Manifest)
    (key : AnnounceKey) (on_rejected : OnRejected P W) where
  -- The handler that Watch installs.
  unfoldable pub watch_message : Message → Watched Manifest W → Watched Manifest W
  unfolding handle_message on_announcement
  watch_message (payload, now) s =
      handle_message P key (on_announcement P D on_rejected) (reject P D on_rejected) payload now s

  -- The messages of a subscription, handled one after another.
  unfoldable pub watch_run : List Message → Watched Manifest W → Watched Manifest W
  watch_run [] s = s
  watch_run (m ∷ ms) s = watch_run ms (watch_message m s)

  -- A message is recorded, and the hook is not called; or the registry stays and the hook is called,
  -- once, with the error of opening it or of observing it.
  pub watch_message_once :
      (m : Message) (r : RemoteRegistry Manifest) (w : W)
      → ((a : Announcement Manifest) × (r' : RemoteRegistry Manifest) × (open_announcement P key m.0
              m.1
            ≡ ok a)
          × (observe D r a ≡ ok r')
          × (watch_message m (r, w) ≡ (r', w)))
        ⊎ ((e : Error B) × (watch_message m (r, w) ≡ (r, on_rejected e w))
            × ((open_announcement P key m.0 m.1 ≡ err e)
                ⊎ ((a : Announcement Manifest) × (open_announcement P key m.0 m.1 ≡ ok a)
                    × (observe D r a ≡ err e))))
  unfolding watch_message
  watch_message_once (payload, now) r w =
      elim (Result-cases (open_announcement P key payload now)) [
        | inl (a, opened) ↦ elim (Result-cases (observe D r a)) [
          | inl (r', seen) ↦ inl (a, r', opened, seen, rw opened (rw seen))
          | inr (e, seen) ↦ inr (e, rw opened (rw seen), inr (a, opened, seen))
        ]
        | inr (e, opened) ↦ inr (e, rw opened, inl opened)
      ]

  -- What a registry guarantees of an entry: it is filed under its own instance id, it is usable, and
  -- the gate allows its address.
  abbrev pub IsTrusted : Option (String → Bool) → String × RemoteEntry Manifest → Type 0
  IsTrusted allow (id, e) = (e.instance_id ≡ id) × IsUsable D e × (allowed allow e.grpc_addr ≡ true)

  -- Where an entry comes from: a message that was opened under the key to its announcement.
  abbrev pub IsAnnounced : List Message → String × RemoteEntry Manifest → Type 0
  IsAnnounced ms (id, e) =
      Any
        (λ m.
          (a : Announcement Manifest) × (open_announcement P key m.0 m.1 ≡ ok a) × (e ≡ entry a))
        ms

  -- All entries of a registry have a property.
  abbrev Entries : (String × RemoteEntry Manifest → Type 0) → RemoteRegistry Manifest → Type 0
  Entries Q r = All Q r.entries

  -- A message keeps a property of the entries if the entries that it may add have it.
  keeps :
      (Q : String × RemoteEntry Manifest → Type 0) (allow : Option (String → Bool)) (m : Message)
      (s : Watched Manifest W)
      → s.0.allow ≡ allow
      → ((a : Announcement Manifest)
          → open_announcement P key m.0 m.1 ≡ ok a
          → IsUsable D (entry a)
          → allowed allow a.grpc_addr ≡ true
          → Q (a.instance_id, entry a))
      → Entries Q s.0
      → ((watch_message m s).0.allow ≡ allow) × Entries Q (watch_message m s).0
  keeps Q allow m (r, w) same adds h = elim (watch_message_once m r w) [
    | inl (a, r', opened, seen, done) ↦
        let (u, gate, new) = (observe_iff D r r' a).0 seen in
        rw (done, new)
          (same, All-put Q r.entries a.instance_id (entry a) h (adds a opened u (rw same at gate)))
    | inr (e, done, why) ↦ rw done (same, h)
  ]

  run_keeps :
      (Q : String × RemoteEntry Manifest → Type 0) (allow : Option (String → Bool))
      (ms : List Message) (s : Watched Manifest W)
      → s.0.allow ≡ allow
      → All
          (λ m.
            (a : Announcement Manifest)
            → open_announcement P key m.0 m.1 ≡ ok a
            → IsUsable D (entry a)
            → allowed allow a.grpc_addr ≡ true
            → Q (a.instance_id, entry a))
          ms
      → Entries Q s.0
      → ((watch_run ms s).0.allow ≡ allow) × Entries Q (watch_run ms s).0
  unfolding watch_run
  run_keeps Q allow [] s same adds h = (same, h)
  run_keeps Q allow (m ∷ ms) s same (add, adds) h =
      let (same', h') = keeps Q allow m s same add h in
      run_keeps Q allow ms (watch_message m s) same' adds h'

  -- Whatever messages arrive, a registry whose entries are trusted has only trusted entries: each is
  -- filed under its own instance id, names an instance, a category and a host and port, and has an
  -- address that the registry's allow function allows.
  pub watch_run-IsTrusted :
      (allow : Option (String → Bool)) (ms : List Message) (r : RemoteRegistry Manifest) (w : W)
      → r.allow ≡ allow
      → All (IsTrusted allow) r.entries
      → All (IsTrusted allow) (watch_run ms (r, w)).0.entries
  watch_run-IsTrusted allow ms r w same h =
      (run_keeps (IsTrusted allow) allow ms (r, w) same
        (All-const (λ m a opened u gate. (refl, u, gate)) ms) h).1

  -- Every entry of a registry that began empty was announced: one of the messages was opened, under
  -- the watcher's key at the time of its arrival, to the announcement of that entry.
  pub watch_run-IsAnnounced :
      (ms : List Message) (r : RemoteRegistry Manifest) (w : W)
      → r.entries ≡ []
      → All (IsAnnounced ms) (watch_run ms (r, w)).0.entries
  watch_run-IsAnnounced ms r w none_yet =
      (run_keeps (IsAnnounced ms) r.allow ms (r, w) refl
        (All-map (λ m found a opened u gate. found a (a, opened, refl)) ms
          (All-Any
            (λ (c : Announcement Manifest) m.
              (a : Announcement Manifest) × (open_announcement P key m.0 m.1 ≡ ok a)
              × (entry c ≡ entry a))
            ms))
        (rw none_yet tt)).1

  -- Without an allow function nothing is ever recorded: the registry stays as it was, whatever
  -- messages arrive.
  pub watch_run_fail_closed :
      (ms : List Message) (r : RemoteRegistry Manifest) (w : W)
      → r.allow ≡ none
      → (watch_run ms (r, w)).0 ≡ r
  unfolding watch_run
  watch_run_fail_closed [] r w closed = refl
  watch_run_fail_closed (m ∷ ms) r w closed = elim (watch_message_once m r w) [
    | inl (a, r', opened, seen, done) ↦ let gate = ((observe_iff D r r' a).0 seen).1 in absurd (cc)
    | inr (e, done, why) ↦
        subst (λ s. (watch_run ms s).0 ≡ r) (sym done)
          (watch_run_fail_closed ms r (on_rejected e w) closed)
  ]
