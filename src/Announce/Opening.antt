-- ===== src/Announce/Opening.antt =====
-- announce.go: which messages openAnnouncement accepts, and what it refuses the others with.
use herrscher_transport.Prelude.{
  ◌≤◌, ◌≡◌, refl, ◌≢◌, ◌↔◌, inl, inr, true, false, ℤ, none, some, [], ◌∷◌, ◌++◌, length, arith, All,
  contains_func, sym, Bool-cases,
}
use herrscher_transport.Errors.{ok, ◌>>=◌, bind-eq-ok}
use herrscher_transport.Codec.{Bytes}
use herrscher_transport.Announce.Time.{sub_abs, distance, announce_window}
use herrscher_transport.Announce.Decimal.{append_int, append_int-injective, append_int-no_line_feed}
use herrscher_transport.Announce.{
  open_envelope, non_zero_byte, Announcement, AnnounceKey, AnnounceEnvelope, Packages,
  parse_announce_key, max_announce_bytes, mac_equal, mac_message, mac, decode_strict,
  open_announcement,
}

mac_equal_refl : (x : Bytes) → mac_equal x x ≡ true
mac_equal_refl [] = refl
mac_equal_refl (a ∷ x) = ground (arith, mac_equal_refl x)

pub mac_equal-eq : (x y : Bytes) → mac_equal x y ≡ true → x ≡ y
mac_equal-eq [] [] h = refl
mac_equal-eq [] (b ∷ y) h = cc
mac_equal-eq (a ∷ x) [] h = cc
mac_equal-eq (a ∷ x) (b ∷ y) h = ground (arith, mac_equal-eq x y)

-- A time is fresh exactly when it is at most the window away, edges included.
pub fresh_iff : (now t : ℤ) → (sub_abs now t ≤ announce_window) ↔ (distance now t ≤ announce_window)
unfolding sub_abs
fresh_iff now t = ((λ h. omega arith), (λ h. omega arith))

-- The text before the first line feed determines where it stands.
split_at_line_feed :
    (x y u v : Bytes)
    → All (λ d. d ≢ 10) x
    → All (λ d. d ≢ 10) y
    → x ++ b'\n' ∷ u ≡ y ++ b'\n' ∷ v
    → (x ≡ y) × (u ≡ v)
split_at_line_feed [] [] u v h k e = (refl, cc)
split_at_line_feed [] (b ∷ y) u v h (n, k) e = absurd (n (sym (cc)))
split_at_line_feed (a ∷ x) [] u v (n, h) k e = absurd (n (cc))
split_at_line_feed (a ∷ x) (b ∷ y) u v (n, h) (m, k) e =
    let (p, q) = split_at_line_feed x y u v h k (cc) in (cc, q)

-- The MAC's input determines the issue time and the body: no two pairs of a time and a body share
-- it.
pub mac_message-injective :
    (t t' : ℤ) (body body' : Bytes)
    → mac_message t body ≡ mac_message t' body'
    → (t ≡ t') × (body ≡ body')
unfolding mac_message
mac_message-injective t t' body body' e =
    let (p, q) =
      split_at_line_feed (append_int t) (append_int t') body body' (append_int-no_line_feed t)
        (append_int-no_line_feed t') e in
    (append_int-injective t t' p, q)

pub mac_equal_of_eq : (x y : Bytes) → x ≡ y → mac_equal x y ≡ true
mac_equal_of_eq x y e = rw e (mac_equal_refl y)

-- slices.ContainsFunc(secret, nonZeroByte)
zeros_lack_bits :
    (secret : Bytes) → All (λ b. b ≡ 0) secret → contains_func secret non_zero_byte ≡ false
unfolding non_zero_byte
zeros_lack_bits [] h = refl
zeros_lack_bits (b ∷ bs) (z, h) = ground (arith, zeros_lack_bits bs h)

only_zeros : (secret : Bytes) → contains_func secret non_zero_byte ≡ false → All (λ b. b ≡ 0) secret
unfolding non_zero_byte
only_zeros [] h = tt
only_zeros (b ∷ bs) h = (ground arith, only_zeros bs (ground arith))

-- A secret makes a key exactly when it has at least 32 bytes, not all of them zero, and the key is
-- then that secret.
pub parse_announce_key_iff :
    (B : Type 0) (secret : Bytes) (key : AnnounceKey)
    → (parse_announce_key B secret ≡ ok key)
      ↔ ((32 ≤ length secret) × ¬ All (λ b. b ≡ 0) secret × (key ≡ some secret))
unfolding parse_announce_key
parse_announce_key_iff B secret key = (
  (λ h. (ground arith, (λ z. ground (arith, zeros_lack_bits secret z)), ground arith)),
  (λ (long, some_bit, e). elim (Bool-cases (contains_func secret non_zero_byte)) [
    | inl found ↦ rw (found, e) (ground arith)
    | inr none_found ↦ absurd (some_bit (only_zeros secret none_found))
  ]),
)

module _ {B Manifest : Type 0} (P : Packages B Manifest) where
  open P use {marshal_announcement, marshal_envelope, announcement_decoder, envelope_decoder}

  -- What makes a message acceptable under a key at a time.
  pub record IsAuthentic (key : AnnounceKey) (payload : Bytes) (now : ℤ)
      (ann : Announcement Manifest) : Type 0 where
    pub material : Bytes
    pub envelope : AnnounceEnvelope
    pub keyed : key ≡ some material
    pub sized : length payload ≤ max_announce_bytes
    pub shaped : decode_strict envelope_decoder payload ≡ ok envelope
    pub authenticated :
        envelope.mac_bytes ≡ mac P material envelope.issued_at_unix_nano envelope.body
    pub fresh : distance now envelope.issued_at_unix_nano ≤ announce_window
    pub readable : decode_strict announcement_decoder envelope.body ≡ ok ann

  -- A message that meets the conditions is opened.
  pub open_authentic :
      (key : AnnounceKey) (payload : Bytes) (now : ℤ) (ann : Announcement Manifest)
      → IsAuthentic key payload now ann
      → open_announcement P key payload now ≡ ok ann
  unfolding open_announcement
  open_authentic key payload now ann a = rw a.keyed (
      ground (
        arith,
        a.shaped,
        mac_equal_of_eq a.envelope.mac_bytes
            (mac P a.material a.envelope.issued_at_unix_nano a.envelope.body) a.authenticated,
        (fresh_iff now a.envelope.issued_at_unix_nano).1 a.fresh,
      ))

  size_checked :
      (material payload : Bytes) (now : ℤ) (ann : Announcement Manifest)
      → open_announcement P (some material) payload now ≡ ok ann
      → (length payload ≤ max_announce_bytes)
        × ((decode_strict envelope_decoder payload >>= open_envelope P material now) ≡ ok ann)
  unfolding open_announcement
  size_checked material payload now ann h = (ground arith, ground arith)

  envelope_checked :
      (material : Bytes) (now : ℤ) (envelope : AnnounceEnvelope) (ann : Announcement Manifest)
      → open_envelope P material now envelope ≡ ok ann
      → (envelope.mac_bytes ≡ mac P material envelope.issued_at_unix_nano envelope.body)
        × (distance now envelope.issued_at_unix_nano ≤ announce_window)
        × (decode_strict announcement_decoder envelope.body ≡ ok ann)
  unfolding open_envelope
  envelope_checked material now envelope ann h =
      let expected = mac P material envelope.issued_at_unix_nano envelope.body in
      (
        mac_equal-eq envelope.mac_bytes expected (ground arith),
        (fresh_iff now envelope.issued_at_unix_nano).0 (ground arith),
        ground arith,
      )

  -- An opened message meets the conditions.
  pub open_announcement-IsAuthentic :
      (key : AnnounceKey) (payload : Bytes) (now : ℤ) (ann : Announcement Manifest)
      → open_announcement P key payload now ≡ ok ann
      → IsAuthentic key payload now ann
  unfolding open_announcement
  open_announcement-IsAuthentic none payload now ann h = cc
  open_announcement-IsAuthentic (some material) payload now ann h =
      let (small, h') = size_checked material payload now ann h in
      let (envelope, shaped, opened) =
        bind-eq-ok (decode_strict envelope_decoder payload) (open_envelope P material now) h' in
      let (authenticated, fresh, readable) = envelope_checked material now envelope ann opened in
      record {
        material = material;
        envelope = envelope;
        keyed = refl;
        sized = small;
        shaped = shaped;
        authenticated = authenticated;
        fresh = fresh;
        readable = readable;
      }

  -- openAnnouncement returns an announcement exactly for the messages that are authentic: the key is
  -- not nil, the message is at most 32 KiB, it is one envelope, its MAC is that of its time and body
  -- under the key, its time is at most the window from the receiver's, and its body is one
  -- announcement, the one returned.
  pub open_announcement_iff :
      (key : AnnounceKey) (payload : Bytes) (now : ℤ) (ann : Announcement Manifest)
      → (open_announcement P key payload now ≡ ok ann) ↔ IsAuthentic key payload now ann
  open_announcement_iff key payload now ann =
      (open_announcement-IsAuthentic key payload now ann, open_authentic key payload now ann)
