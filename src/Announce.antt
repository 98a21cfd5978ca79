-- ===== src/Announce.antt =====
-- announce.go: announcements sealed in an authenticated envelope, opened, published and watched.
-- contracts.Manifest, encoding/json, HMAC-SHA256 and NATS are outside this repository: `Packages`
-- holds what the code calls of them. An AnnounceKey is the pointer to its bytes, nil in the zero key.
pub mod Time
pub mod Decimal
pub mod Opening
pub mod Refusals
pub mod Replay
pub mod Sealing
use herrscher_transport.Prelude.{
  ℕ, ◌*◌, ◌≡◌, Bool, true, false, not, ◌||◌, ◌&&◌, String, ℤ, Option, none, some, List, [], ◌∷◌,
  ◌++◌, length, ltb, nat_eq, contains_func, ◌⧺◌, if◌then◌else◌,
}
use herrscher_transport.Errors.{
  Error, Result, ok, err, ◌>>=◌, wrapped, wrap, noted, wrap_both, is_eof, no_announce_key,
  weak_announce_key, unauthenticated_announcement, stale_announcement, oversized_announcement,
  malformed_announcement, nil_hook,
}
use herrscher_transport.Codec.{Bytes}
use herrscher_transport.Subjects.{subject_announce}
use herrscher_transport.Announce.Time.{sub_abs, announce_window}
use herrscher_transport.Announce.Decimal.{append_int}

abbrev pub min_announce_key_len : ℕ
min_announce_key_len = 32

abbrev pub max_announce_bytes : ℕ
max_announce_bytes = 32 * 1024

pub record Announcement (Manifest : Type 0) : Type 0 where
  pub manifest : Manifest
  pub grpc_addr : String
  pub instance_id : String

abbrev pub AnnounceKey : Type 0
AnnounceKey = Option Bytes

-- AnnounceKey.String, GoString and LogValue; slog.StringValue is `string_value`.
abbrev pub key_string : AnnounceKey → String
key_string key = "transport.AnnounceKey(redacted)"

abbrev pub key_go_string : AnnounceKey → String
key_go_string key = key_string key

abbrev pub key_log_value : {Value : Type 0} → (String → Value) → AnnounceKey → Value
key_log_value string_value key = string_value (key_string key)

-- !key.usable()
abbrev pub is_nil : AnnounceKey → Bool
is_nil none = true
is_nil (some material) = false

non_zero_byte : ℕ → Bool
non_zero_byte b = not (nat_eq b 0)

-- ParseAnnounceKey
unfoldable pub parse_announce_key : (B : Type 0) → Bytes → Result B AnnounceKey
unfolding non_zero_byte
parse_announce_key B secret =
    if ltb (length secret) min_announce_key_len || not (contains_func secret non_zero_byte)
    then err weak_announce_key
    else ok (some secret)

pub record AnnounceEnvelope : Type 0 where
  pub issued_at_unix_nano : ℤ
  pub body : Bytes
  pub mac_bytes : Bytes

-- A json.Decoder at the start of some bytes: the value that Decode finds there with the bytes that
-- follow it, and what Token then returns.
pub record Decoder (B A : Type 0) : Type 0 where
  pub decode : Bytes → Result B (A × Bytes)
  pub token : Bytes → Result B (Unit {0})

pub record Packages (B Manifest : Type 0) : Type 0 where
  pub marshal_announcement : Announcement Manifest → Result B Bytes
  pub marshal_envelope : AnnounceEnvelope → Result B Bytes
  pub announcement_decoder : Decoder B (Announcement Manifest)
  pub envelope_decoder : Decoder B AnnounceEnvelope
  -- hmac.New(sha256.New, key), Write(message), Sum
  pub hmac : (key message : Bytes) → Bytes

-- hmac.Equal
abbrev pub mac_equal : Bytes → Bytes → Bool
mac_equal [] [] = true
mac_equal (a ∷ x) (b ∷ y) = nat_eq a b && mac_equal x y
mac_equal _ _ = false

-- What the MAC is computed over.
unfoldable pub mac_message : ℤ → Bytes → Bytes
mac_message issued body = append_int issued ++ b'\n' ∷ body

module _ {B A : Type 0} (D : Decoder B A) where
  open D use {decode, token}

  -- `if _, err := decoder.Token(); !errors.Is(err, io.EOF)`
  at_end : A → Result B (Unit {0}) → Result B A
  at_end v (ok u) = err (noted malformed_announcement "trailing data after the value")
  at_end v (err e) =
      if is_eof e then ok v else err (noted malformed_announcement "trailing data after the value")

  decoded : Result B (A × Bytes) → Result B A
  unfolding at_end is_eof
  decoded (err e) = err (wrap_both malformed_announcement e)
  decoded (ok (v, rest)) = at_end v (token rest)

  -- decodeStrict
  unfoldable pub decode_strict : Bytes → Result B A
  unfolding decoded
  decode_strict input = decoded (decode input)

module _ {B Manifest : Type 0} (P : Packages B Manifest) where
  open P use {marshal_announcement, marshal_envelope, announcement_decoder, envelope_decoder, hmac}

  -- AnnounceKey.mac
  unfoldable pub mac : Bytes → ℤ → Bytes → Bytes
  mac material issued body = hmac material (mac_message issued body)

  -- sealAnnouncement
  unfoldable pub seal_announcement : AnnounceKey → Announcement Manifest → ℤ → Result B Bytes
  unfolding mac
  seal_announcement none ann now = err no_announce_key
  seal_announcement (some material) ann now = do
    body ← wrapped "transport: marshal announcement" (marshal_announcement ann)
    payload ← wrapped "transport: marshal announcement" (
        marshal_envelope
          (record { issued_at_unix_nano = now; body = body; mac_bytes = mac material now body }))
    ok payload

  open_envelope : Bytes → ℤ → AnnounceEnvelope → Result B (Announcement Manifest)
  open_envelope material now envelope =
      if not
        (mac_equal envelope.mac_bytes (mac material envelope.issued_at_unix_nano envelope.body))
      then err unauthenticated_announcement
      else if ltb announce_window (sub_abs now envelope.issued_at_unix_nano)
      then err stale_announcement
      else decode_strict announcement_decoder envelope.body

  -- openAnnouncement
  unfoldable pub open_announcement : AnnounceKey → Bytes → ℤ → Result B (Announcement Manifest)
  unfolding open_envelope
  open_announcement none payload now = err no_announce_key
  open_announcement (some material) payload now =
      if ltb max_announce_bytes (length payload)
      then err oversized_announcement
      else (decode_strict envelope_decoder payload >>= open_envelope material now)

  -- Announce: `publish` is conn.Publish.
  unfoldable pub announce :
      ((subject : String) → Bytes → Result B (Unit {0}))
      → AnnounceKey
      → Announcement Manifest
      → ℤ
      → Result B (Unit {0})
  unfolding seal_announcement
  announce publish key ann now = do
    payload ← seal_announcement key ann now
    wrapped "transport: publish announcement" (publish subject_announce payload)

  -- The hooks, as functions on the state of the process; a nil hook is `none`.
  abbrev pub OnAnnouncement : Type 0 → Type 0
  OnAnnouncement S = Announcement Manifest → S → S

  abbrev pub OnRejected : Type 0 → Type 0
  OnRejected S = Error B → S → S

  -- The message handler that subscribeAnnouncements installs.
  module _ {S : Type 0} (key : AnnounceKey) (on_announcement : OnAnnouncement S)
      (on_rejected : OnRejected S) where
    hand_over : Result B (Announcement Manifest) → S → S
    hand_over (ok ann) s = on_announcement ann s
    hand_over (err e) s = on_rejected e s

    unfoldable pub handle_message : Bytes → ℤ → S → S
    unfolding hand_over
    handle_message payload now s = hand_over (open_announcement key payload now) s

  -- subscribeAnnouncements: the handler, once conn.Subscribe, which is `subscribe`, has taken it for
  -- the subject.
  unfoldable pub subscribe_announcements :
      {S : Type 0}
      → ((subject : String) → Result B (Unit {0}))
      → AnnounceKey
      → Option (OnAnnouncement S)
      → Option (OnRejected S)
      → Result B (Bytes → ℤ → S → S)
  subscribe_announcements subscribe key (some on_announcement) (some on_rejected) =
      if is_nil key
      then err no_announce_key
      else do u ← subscribe subject_announce; ok (handle_message key on_announcement on_rejected)
  subscribe_announcements subscribe key _ _ = err nil_hook

  -- WatchAnnouncements
  unfoldable pub watch_announcements :
      {S : Type 0}
      → ((subject : String) → Result B (Unit {0}))
      → AnnounceKey
      → Option (OnAnnouncement S)
      → Option (OnRejected S)
      → Result B (Bytes → ℤ → S → S)
  unfolding subscribe_announcements
  watch_announcements subscribe key on_announcement on_rejected =
      subscribe_announcements subscribe key on_announcement on_rejected
