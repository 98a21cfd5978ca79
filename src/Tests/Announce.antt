-- ===== src/Tests/Announce.antt =====
-- Announcements whose JSON is a few numbers and whose MAC is the key before the message.
use herrscher_transport.Prelude.{
  ◌↔◌, ◌*◌, ◌⊎◌, ℕ, zero, suc, ◌≡◌, refl, ◌≤◌, inl, ℤ, pos, negsuc, ◌&&◌, some, [], ◌∷◌, ◌++◌, ◌==◌,
  if◌then◌else◌, eq_iff, arith, Any, subst, ap,
}
use herrscher_transport.Errors.{
  Result, ok, err, external, eof, ok-injective, unauthenticated_announcement, stale_announcement,
}
use herrscher_transport.Codec.{Bytes}
use herrscher_transport.Announce.Time.{sub_abs, distance, announce_window}
use herrscher_transport.Announce.Decimal.{append_int}
use herrscher_transport.Announce.{
  Announcement, AnnounceEnvelope, Packages, mac, mac_message, decode_strict, seal_announcement,
  open_announcement,
}
use herrscher_transport.Announce.Opening.{IsAuthentic, open_announcement_iff, mac_message-injective}
use herrscher_transport.Announce.Refusals.{Ends, forged, open_announcement_refusals}
use herrscher_transport.Announce.Replay.{open_announcement_replayed}
use herrscher_transport.Announce.Sealing.{ReadsBack, open-seal, opened_was_signed}

abbrev pub from : ℕ → Announcement ℕ
from n = record { manifest = n; grpc_addr = "near:1"; instance_id = "i" }

-- Only announcements from one address can be written.
abbrev write_announcement : Announcement ℕ → Result ℕ Bytes
write_announcement a =
    if a.grpc_addr == "near:1" && a.instance_id == "i"
    then ok (a.manifest ∷ [])
    else err (external "unsupported value")

abbrev read_announcement : Bytes → Result ℕ (Announcement ℕ × Bytes)
read_announcement [] = err eof
read_announcement (n ∷ rest) = ok (from n, rest)

abbrev envelope_of : ℤ → ℕ → Bytes → AnnounceEnvelope
envelope_of t b m = record { issued_at_unix_nano = t; body = b ∷ []; mac_bytes = m }

-- Only envelopes with a body of one byte can be written.
abbrev write_body : ℤ → Bytes → Bytes → Result ℕ Bytes
write_body (pos n) (b ∷ []) m = ok (0 ∷ n ∷ b ∷ m)
write_body (negsuc n) (b ∷ []) m = ok (1 ∷ n ∷ b ∷ m)
write_body t body m = err (external "unsupported value")

abbrev read_envelope : Bytes → Result ℕ (AnnounceEnvelope × Bytes)
read_envelope (zero ∷ n ∷ b ∷ m) = ok (envelope_of (pos n) b m, [])
read_envelope (suc s ∷ n ∷ b ∷ m) = ok (envelope_of (negsuc n) b m, [])
read_envelope input = err (external "unexpected end of JSON input")

abbrev token_of : Bytes → Result ℕ (Unit {0})
token_of [] = err eof
token_of (b ∷ bs) = ok tt

abbrev pub packages : Packages ℕ ℕ
packages = record {
  marshal_announcement = write_announcement;
  marshal_envelope = λ env. write_body env.issued_at_unix_nano env.body env.mac_bytes;
  announcement_decoder = record { decode = read_announcement; token = token_of };
  envelope_decoder = record { decode = read_envelope; token = token_of };
  hmac = λ key message. key ++ message;
}

abbrev pub secret : Bytes
secret =
    9 ∷ 0 ∷ 0 ∷ 0 ∷ 0 ∷ 0 ∷ 0 ∷ 0 ∷ 0 ∷ 0 ∷ 0 ∷ 0 ∷ 0 ∷ 0 ∷ 0 ∷ 0 ∷ 0 ∷ 0 ∷ 0 ∷ 0 ∷ 0 ∷ 0 ∷ 0 ∷ 0
    ∷ 0 ∷ 0 ∷ 0 ∷ 0 ∷ 0 ∷ 0 ∷ 0 ∷ 0 ∷ []

-- The announcement from 7, sealed at the time 42.
abbrev pub sealed : Bytes
sealed = 0 ∷ 42 ∷ 7 ∷ (secret ++ b'4' ∷ b'2' ∷ b'\n' ∷ 7 ∷ [])

pub sealed_lem : seal_announcement packages (some secret) (from 7) (pos 42) ≡ ok sealed
unfolding seal_announcement mac_message append_int
sealed_lem = refl

pub opened_lem : open_announcement packages (some secret) sealed (pos 1000) ≡ ok (from 7)
unfolding open_announcement mac_message decode_strict mac append_int sub_abs
opened_lem = refl

written :
    (ann : Announcement ℕ) (body : Bytes)
    → write_announcement ann ≡ ok body
    → (ann.grpc_addr ≡ "near:1") × (ann.instance_id ≡ "i") × (ann.manifest ∷ [] ≡ body)
written ann body h = ground (arith, eq_iff ann.grpc_addr "near:1", eq_iff ann.instance_id "i")

rebuilt :
    (ann : Announcement ℕ)
    → ann.grpc_addr ≡ "near:1"
    → ann.instance_id ≡ "i"
    → from ann.manifest ≡ ann
rebuilt ann near named = cc

reads_announcement :
    (ann : Announcement ℕ) (body : Bytes)
    → write_announcement ann ≡ ok body
    → decode_strict packages.announcement_decoder body ≡ ok ann
unfolding decode_strict
reads_announcement ann body h =
    let (near, named, same) = written ann body h in
    subst (λ b. decode_strict packages.announcement_decoder b ≡ ok ann) same
      (ap ok (rebuilt ann near named))

reads_envelope :
    (t : ℤ) (body m payload : Bytes)
    → write_body t body m ≡ ok payload
    → decode_strict packages.envelope_decoder payload
      ≡ ok (record { issued_at_unix_nano = t; body = body; mac_bytes = m })
unfolding decode_strict
reads_envelope (pos n) [] m payload h = cc
reads_envelope (negsuc n) [] m payload h = cc
reads_envelope (pos n) (b ∷ []) m payload h =
    subst (λ p. decode_strict packages.envelope_decoder p ≡ ok (envelope_of (pos n) b m))
      (ok-injective h) refl
reads_envelope (negsuc n) (b ∷ []) m payload h =
    subst (λ p. decode_strict packages.envelope_decoder p ≡ ok (envelope_of (negsuc n) b m))
      (ok-injective h) refl
reads_envelope (pos n) (b ∷ c ∷ bs) m payload h = cc
reads_envelope (negsuc n) (b ∷ c ∷ bs) m payload h = cc

pub reads : ReadsBack packages
reads = record {
  announcement = reads_announcement;
  envelope =
      λ env payload h. reads_envelope env.issued_at_unix_nano env.body env.mac_bytes payload h;
}

open_announcement_iff_example : IsAuthentic packages (some secret) sealed (pos 1000) (from 7)
open_announcement_iff_example =
    (open_announcement_iff packages (some secret) sealed (pos 1000) (from 7)).0 opened_lem

open-seal_example : open_announcement packages (some secret) sealed (pos 1000) ≡ ok (from 7)
open-seal_example =
    open-seal packages reads (some secret) (from 7) (pos 42) (pos 1000) sealed sealed_lem
      (omega arith) (omega arith)

mac_message-injective_example : (pos 42 ≡ pos 42) × (secret ≡ secret)
mac_message-injective_example = mac_message-injective (pos 42) (pos 42) secret secret refl

-- The message under another key.
open_announcement_refusals_example :
    (open_announcement packages (some (8 ∷ [])) sealed (pos 1000)
      ≡ err unauthenticated_announcement)
    ↔ Ends packages (8 ∷ []) sealed (pos 1000) (err unauthenticated_announcement)
open_announcement_refusals_example =
    open_announcement_refusals packages (8 ∷ []) sealed (pos 1000)
      (err unauthenticated_announcement)

-- Under another key the message is taken for a forged one.
under_another_key : Ends packages (8 ∷ []) sealed (pos 1000) (err unauthenticated_announcement)
unfolding mac mac_message append_int decode_strict
under_another_key =
    forged {envelope = envelope_of (pos 42) 7 (secret ++ b'4' ∷ b'2' ∷ b'\n' ∷ 7 ∷ [])}
      (omega arith) refl (λ e. cc)

open_announcement_replayed_example :
    ((open_announcement packages (some secret) sealed (pos 2000) ≡ ok (from 7))
      × (distance (pos 2000) (pos 1000) ≤ 2 * announce_window))
    ⊎ (open_announcement packages (some secret) sealed (pos 2000) ≡ err stale_announcement)
open_announcement_replayed_example =
    open_announcement_replayed packages (some secret) sealed (pos 1000) (pos 2000) (from 7)
      opened_lem

opened_was_signed_example :
    Any
      (λ (p : ℤ × Bytes).
        (decode_strict packages.announcement_decoder p.1 ≡ ok (from 7))
        × (distance (pos 1000) p.0 ≤ announce_window))
      ((pos 42, 7 ∷ []) ∷ [])
unfolding decode_strict
opened_was_signed_example =
    opened_was_signed packages secret sealed (pos 1000) (from 7) ((pos 42, 7 ∷ []) ∷ [])
      (λ env shaped verified.
        inl (ap (λ e. mac_message e.issued_at_unix_nano e.body) (ok-injective shaped)))
      opened_lem
