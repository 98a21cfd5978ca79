-- ===== src/Announce/Refusals.antt =====
-- announce.go: the order of the checks in openAnnouncement, by the error of the first that fails.
use herrscher_transport.Prelude.{
  ◌≤◌, ◌<◌, ◌≡◌, false, ℤ, some, length, arith, ◌⊎◌, ◌↔◌, inl, inr, Bool-cases, sym, ◌∙◌, subst,
  le_or_lt,
}
use herrscher_transport.Errors.{
  Error, Result, ok, err, Result-cases, unauthenticated_announcement, stale_announcement,
  oversized_announcement,
}
use herrscher_transport.Codec.{Bytes}
use herrscher_transport.Announce.Time.{sub_abs, distance, announce_window}
use herrscher_transport.Announce.{
  Announcement, AnnounceEnvelope, Packages, max_announce_bytes, mac_equal, mac, decode_strict,
  open_announcement,
}
use herrscher_transport.Announce.Opening.{mac_equal_of_eq, mac_equal-eq}

module _ {B Manifest : Type 0} (P : Packages B Manifest) (material payload : Bytes) (now : ℤ) where
  open P use {announcement_decoder, envelope_decoder}

  abbrev opened : Result B (Announcement Manifest)
  opened = open_announcement P (some material) payload now

  abbrev HasMac : AnnounceEnvelope → Type 0
  HasMac envelope = envelope.mac_bytes ≡ mac P material envelope.issued_at_unix_nano envelope.body

  abbrev IsFresh : AnnounceEnvelope → Type 0
  IsFresh envelope = distance now envelope.issued_at_unix_nano ≤ announce_window

  not_equal :
      (envelope : AnnounceEnvelope)
      → ¬ HasMac envelope
      → mac_equal envelope.mac_bytes (mac P material envelope.issued_at_unix_nano envelope.body)
        ≡ false
  not_equal envelope n = ground (
    arith,
    mac_equal-eq envelope.mac_bytes (mac P material envelope.issued_at_unix_nano envelope.body),
  )

  -- What becomes of the message, by the first check that it fails.
  pub data Ends : Result B (Announcement Manifest) → Type 0 where
    too_big : max_announce_bytes < length payload → Ends (err oversized_announcement)
    misshapen :
        {e : Error B}
        → length payload ≤ max_announce_bytes
        → decode_strict envelope_decoder payload ≡ err e
        → Ends (err e)
    forged :
        {envelope : AnnounceEnvelope}
        → length payload ≤ max_announce_bytes
        → decode_strict envelope_decoder payload ≡ ok envelope
        → ¬ HasMac envelope
        → Ends (err unauthenticated_announcement)
    stale :
        {envelope : AnnounceEnvelope}
        → length payload ≤ max_announce_bytes
        → decode_strict envelope_decoder payload ≡ ok envelope
        → HasMac envelope
        → ¬ IsFresh envelope
        → Ends (err stale_announcement)
    read :
        {envelope : AnnounceEnvelope}
        → length payload ≤ max_announce_bytes
        → decode_strict envelope_decoder payload ≡ ok envelope
        → HasMac envelope
        → IsFresh envelope
        → Ends (decode_strict announcement_decoder envelope.body)

  pub Ends-opened : {r : Result B (Announcement Manifest)} → Ends r → opened ≡ r
  unfolding open_announcement sub_abs
  Ends-opened (too_big big) = ground arith
  Ends-opened (misshapen small shape) = ground arith
  Ends-opened (forged {envelope} small shape n) = ground (arith, not_equal envelope n)
  Ends-opened (stale {envelope} small shape m old) =
      ground (arith, mac_equal_of_eq envelope.mac_bytes _ m)
  Ends-opened (read {envelope} small shape m new) =
      ground (arith, mac_equal_of_eq envelope.mac_bytes _ m)

  HasMac-or_not : (envelope : AnnounceEnvelope) → HasMac envelope ⊎ (¬ HasMac envelope)
  HasMac-or_not envelope =
      let expected = mac P material envelope.issued_at_unix_nano envelope.body in
      elim (Bool-cases (mac_equal envelope.mac_bytes expected)) [
        | inl same ↦ inl (mac_equal-eq envelope.mac_bytes expected same)
        | inr other ↦
            inr (λ m. let same = mac_equal_of_eq envelope.mac_bytes expected m in absurd (cc))
      ]

  -- Some check ends the message.
  ends_somehow : (r : Result B (Announcement Manifest)) × Ends r
  ends_somehow = elim (le_or_lt (length payload) max_announce_bytes) [
    | inr big ↦ (_, too_big big)
    | inl small ↦ elim (Result-cases (decode_strict envelope_decoder payload)) [
      | inr (e, shape) ↦ (_, misshapen small shape)
      | inl (envelope, shape) ↦ elim (HasMac-or_not envelope) [
        | inr n ↦ (_, forged small shape n)
        | inl m ↦ elim (le_or_lt (distance now envelope.issued_at_unix_nano) announce_window) [
          | inl new ↦ (_, read small shape m new)
          | inr old ↦ (_, stale small shape m (λ new. omega arith))
        ]
      ]
    ]
  ]

  -- Under a key, a message ends with the first of these that applies, in this order: its size, its
  -- envelope's shape, its MAC, its time, the decoding of its body. So the body of a message whose MAC
  -- does not verify, or whose time is out of the window, is never decoded.
  pub open_announcement_refusals : (r : Result B (Announcement Manifest)) → (opened ≡ r) ↔ Ends r
  open_announcement_refusals r = (
    (λ h. let (r', ends) = ends_somehow in subst Ends (sym (Ends-opened ends) ∙ h) ends),
    Ends-opened,
  )
