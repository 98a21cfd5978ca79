-- ===== src/Registry/Discovery.antt =====
-- remote_registry.go and announce.go: from Announce to the queries of a watching registry.
use herrscher_transport.Prelude.{
  ◌≡◌, refl, ◌≤◌, inl, inr, true, String, ℤ, Option, none, some, List, [], ◌∷◌, length, Any, put,
  ap, sym, subst, Bool-cases, ◌==◌,
}
use herrscher_transport.Errors.{Result, ok, ok-injective, bind-eq-ok}
use herrscher_transport.Subjects.{subject_announce}
use herrscher_transport.Codec.{Bytes}
use herrscher_transport.Announce.{
  Announcement, AnnounceKey, Packages, OnRejected, announce, subscribe_announcements,
  seal_announcement, max_announce_bytes, open_announcement,
}
use herrscher_transport.Announce.Time.{distance, announce_window}
use herrscher_transport.Announce.Sealing.{ReadsBack, open-seal}
use herrscher_transport.Registry.{
  RemoteRegistry, Directory, Watched, entry, allowed, by_category, watch,
}
use herrscher_transport.Registry.Entries.{IsUsable, observe_iff}
use herrscher_transport.Registry.Queries.{by_category_iff}
use herrscher_transport.Registry.Watching.{watch_message}

put-Any :
    {V : Type 0} (Q : String × V → Type 0) (m : List (String × V)) (k : String) (v : V)
    → ((j : String) → Q (j, v))
    → Any Q (put m k v)
unfolding put
put-Any Q [] k v q = inl (q k)
put-Any Q ((j, w) ∷ m) k v q = elim (Bool-cases (j == k)) [
  | inl same ↦ rw same (inl (q j))
  | inr other ↦ rw other (inr (put-Any Q m k v q))
]

module _ {B Manifest : Type 0} (D : Directory B Manifest) where
  open D use {category}

  listed :
      (ann : Announcement Manifest) (r : RemoteRegistry Manifest)
      → Any
          (λ e. e ≡ entry ann)
          (by_category D
            (record r { entries = put r.entries ann.instance_id (entry ann) })
            (category ann.manifest))
  listed ann r =
      (by_category_iff D (record r { entries = put r.entries ann.instance_id (entry ann) })
          (category ann.manifest) (entry ann)).1
        (put-Any (λ p. (p.1 ≡ entry ann) × (category p.1.manifest ≡ category ann.manifest))
          r.entries ann.instance_id (entry ann) (λ j. (refl, refl)))

module _ {B Manifest W : Type 0} (P : Packages B Manifest) (D : Directory B Manifest) where
  open D use {category}

  -- Watch installs a handler only with a hook, under a key and when the subscription is taken; and
  -- that handler opens each message under the key, observes what it opens, and hands what is refused
  -- to the hook.
  pub watch_installs :
      (subscribe : String → Result B (Unit {0})) (key : AnnounceKey)
      (hook : Option (OnRejected P W))
      (handler : Bytes → ℤ → Watched Manifest W → Watched Manifest W)
      → watch P D subscribe key hook ≡ ok handler
      → (material : Bytes) × (on_rejected : OnRejected P W) × (key ≡ some material)
        × (hook ≡ some on_rejected)
        × (subscribe subject_announce ≡ ok tt)
        × ((payload : Bytes) (now : ℤ) (s : Watched Manifest W)
            → handler payload now s ≡ watch_message P D key on_rejected (payload, now) s)
  unfolding watch subscribe_announcements watch_message
  watch_installs subscribe key none handler h = cc
  watch_installs subscribe none (some f) handler h = cc
  watch_installs subscribe (some material) (some f) handler h =
      let (u, taken, installed) = bind-eq-ok (subscribe subject_announce) _ h in
      (
        material,
        f,
        refl,
        refl,
        taken,
        λ payload now s. ap (λ k. k payload now s) (sym (ok-injective installed)),
      )

  handled :
      (key : AnnounceKey) (received : ℤ) (payload : Bytes) (ann : Announcement Manifest)
      (on_rejected : OnRejected P W) (r : RemoteRegistry Manifest) (w : W)
      → open_announcement P key payload received ≡ ok ann
      → IsUsable D (entry ann)
      → allowed r.allow ann.grpc_addr ≡ true
      → watch_message P D key on_rejected (payload, received) (r, w)
        ≡ (record r { entries = put r.entries ann.instance_id (entry ann) }, w)
  unfolding watch_message
  handled key received payload ann on_rejected r w opened usable gate =
      let after : RemoteRegistry Manifest = record r {
        entries = put r.entries ann.instance_id (entry ann);
      } in
      rw (opened, (observe_iff D r after ann).1 (usable, gate, refl)) refl

  -- If the JSON of announcements and envelopes is read back by the strict decoders, then what
  -- Announce publishes, when publishing succeeds, the message is at most 32 KiB and the clocks are
  -- at most the window apart, is recorded by a watcher under the same key whose gate allows the
  -- address, provided the announcement is usable; and the registry then lists it under its category.
  pub announced_is_listed :
      ReadsBack P
      → (publish : String → Bytes → Result B (Unit {0})) (key : AnnounceKey)
        (ann : Announcement Manifest) (sent received : ℤ) (payload : Bytes)
        (on_rejected : OnRejected P W) (r : RemoteRegistry Manifest) (w : W)
      → seal_announcement P key ann sent ≡ ok payload
      → publish subject_announce payload ≡ ok tt
      → length payload ≤ max_announce_bytes
      → distance received sent ≤ announce_window
      → IsUsable D (entry ann)
      → allowed r.allow ann.grpc_addr ≡ true
      → let after = watch_message P D key on_rejected (payload, received) (r, w) in
        (announce P publish key ann sent ≡ ok tt)
        × (after ≡ (record r { entries = put r.entries ann.instance_id (entry ann) }, w))
        × Any (λ e. e ≡ entry ann) (by_category D after.0 (category ann.manifest))
  unfolding announce
  announced_is_listed reads publish key ann sent received payload on_rejected r w sealed published
        small near usable gate =
      let opened = open-seal P reads key ann sent received payload sealed small near in
      let done = handled key received payload ann on_rejected r w opened usable gate in
      (
        rw (sealed, published) refl,
        done,
        subst (λ s. Any (λ e. e ≡ entry ann) (by_category D s.0 (category ann.manifest))) (sym done)
            (listed D ann r),
      )
