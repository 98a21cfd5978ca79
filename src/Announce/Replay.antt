-- ===== src/Announce/Replay.antt =====
-- announce.go: what becomes of a message that is delivered again.
use herrscher_transport.Prelude.{◌*◌, ◌+◌, ◌≤◌, ◌≡◌, ◌⊎◌, inl, inr, ℤ, arith, le_or_lt}
use herrscher_transport.Errors.{ok, err, stale_announcement}
use herrscher_transport.Codec.{Bytes}
use herrscher_transport.Announce.Time.{distance, announce_window}
use herrscher_transport.Announce.{Announcement, AnnounceKey, Packages, open_announcement}
use herrscher_transport.Announce.Opening.{open_announcement_iff}
use herrscher_transport.Announce.Refusals.{Ends-opened, stale}

distance_triangle : (a b t : ℤ) → distance a b ≤ distance b t + distance a t
distance_triangle a b t = omega arith

module _ {B Manifest : Type 0} (P : Packages B Manifest) where
  -- A message that was accepted once and is delivered again is either accepted again, with the same
  -- announcement and at most twice the window from the first time, or refused as stale.
  pub open_announcement_replayed :
      (key : AnnounceKey) (payload : Bytes) (now later : ℤ) (ann : Announcement Manifest)
      → open_announcement P key payload now ≡ ok ann
      → ((open_announcement P key payload later ≡ ok ann)
          × (distance later now ≤ 2 * announce_window))
        ⊎ (open_announcement P key payload later ≡ err stale_announcement)
  open_announcement_replayed key payload now later ann opened =
      let a = (open_announcement_iff P key payload now ann).0 opened in
      let issued = a.envelope.issued_at_unix_nano in
      elim (le_or_lt (distance later issued) announce_window) [
        | inl fresh ↦ inl (
          (open_announcement_iff P key payload later ann).1 (record {
            material = a.material;
            envelope = a.envelope;
            keyed = a.keyed;
            sized = a.sized;
            shaped = a.shaped;
            authenticated = a.authenticated;
            fresh = fresh;
            readable = a.readable;
          }),
          omega (arith, a.fresh, distance_triangle later now issued),
        )
        | inr old ↦ inr (
            rw a.keyed (
              Ends-opened P a.material payload later
                (stale a.sized a.shaped a.authenticated (λ new. omega (arith, old, new)))))
      ]
