-- ===== src/Announce/Sealing.antt =====
-- announce.go: what is sealed is opened, and what is opened was sealed.
use herrscher_transport.Prelude.{
  ◌≤◌, ◌≡◌, refl, ℤ, none, some, List, length, Any, Any-map, sym, subst, ◌∙◌,
}
use herrscher_transport.Errors.{ok, bind-eq-ok, wrapped-eq-ok, wrapped}
use herrscher_transport.Codec.{Bytes}
use herrscher_transport.Announce.Time.{distance, announce_window}
use herrscher_transport.Announce.{
  Announcement, AnnounceKey, AnnounceEnvelope, Packages, max_announce_bytes, mac_message, mac,
  decode_strict, seal_announcement, open_announcement,
}
use herrscher_transport.Announce.Opening.{mac_message-injective, open_announcement_iff}

some-eq-some : (x y : Bytes) → some x ≡ some y → x ≡ y
some-eq-some x y e = cc

module _ {B Manifest : Type 0} (P : Packages B Manifest) where
  open P use {marshal_announcement, marshal_envelope, announcement_decoder, envelope_decoder}

  -- The JSON of an announcement and of an envelope are read back by the strict decoders.
  pub record ReadsBack : Type 0 where
    pub announcement :
        (ann : Announcement Manifest) (body : Bytes)
        → marshal_announcement ann ≡ ok body
        → decode_strict announcement_decoder body ≡ ok ann
    pub envelope :
        (env : AnnounceEnvelope) (payload : Bytes)
        → marshal_envelope env ≡ ok payload
        → decode_strict envelope_decoder payload ≡ ok env

  -- If the JSON of announcements and envelopes is read back by the strict decoders, an announcement
  -- that was sealed under a key is opened under that key as itself, when the message is at most 32
  -- KiB and the receiver's clock is at most the window from the sender's.
  pub open-seal :
      ReadsBack
      → (key : AnnounceKey) (ann : Announcement Manifest) (sent received : ℤ) (payload : Bytes)
      → seal_announcement P key ann sent ≡ ok payload
      → length payload ≤ max_announce_bytes
      → distance received sent ≤ announce_window
      → open_announcement P key payload received ≡ ok ann
  unfolding seal_announcement
  open-seal reads none ann sent received payload sealed small near = cc
  open-seal reads (some material) ann sent received payload sealed small near =
      let (body, marshalled, rest) =
        bind-eq-ok (wrapped "transport: marshal announcement" (marshal_announcement ann)) _
          sealed in
      let envelope : AnnounceEnvelope = record {
        issued_at_unix_nano = sent;
        body = body;
        mac_bytes = mac P material sent body;
      } in
      let (payload', written, same) =
        bind-eq-ok (wrapped "transport: marshal announcement" (marshal_envelope envelope)) _ rest in
      (open_announcement_iff P (some material) payload received ann).1 (record {
        material = material;
        envelope = envelope;
        keyed = refl;
        sized = small;
        shaped = reads.envelope envelope payload (
            wrapped-eq-ok "transport: marshal announcement" (marshal_envelope envelope) written
            ∙ same);
        authenticated = refl;
        fresh = near;
        readable =
            reads.announcement ann body (
              wrapped-eq-ok "transport: marshal announcement" (marshal_announcement ann)
                marshalled);
      })

  -- `signed` is what the holders of the key have put under its MAC, as pairs of a time and a body. The
  -- hypothesis is that the message's envelope, if its MAC verifies, has a MAC input that they signed.
  -- Then an opened announcement is the content of a signed body, whose time is within the window.
  pub opened_was_signed :
      (material payload : Bytes) (now : ℤ) (ann : Announcement Manifest) (signed : List (ℤ × Bytes))
      → ((env : AnnounceEnvelope)
          → decode_strict envelope_decoder payload ≡ ok env
          → env.mac_bytes ≡ mac P material env.issued_at_unix_nano env.body
          → Any (λ p. mac_message p.0 p.1 ≡ mac_message env.issued_at_unix_nano env.body) signed)
      → open_announcement P (some material) payload now ≡ ok ann
      → Any
          (λ p.
            (decode_strict announcement_decoder p.1 ≡ ok ann)
            × (distance now p.0 ≤ announce_window))
          signed
  opened_was_signed material payload now ann signed unforged opened =
      let a = (open_announcement_iff P (some material) payload now ann).0 opened in
      let t = a.envelope.issued_at_unix_nano in
      let body = a.envelope.body in
      let same_key : a.material ≡ material = some-eq-some a.material material (sym a.keyed) in
      let verified : a.envelope.mac_bytes ≡ mac P material t body =
        subst (λ m. a.envelope.mac_bytes ≡ mac P m t body) same_key a.authenticated in
      Any-map
        (λ p same.
          let (same_t, same_body) = mac_message-injective p.0 t p.1 body same in
          (
            subst (λ b. decode_strict announcement_decoder b ≡ ok ann) (sym same_body) a.readable,
            subst (λ u. distance now u ≤ announce_window) (sym same_t) a.fresh,
          ))
        signed (unforged a.envelope a.shaped verified)
